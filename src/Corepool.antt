-- ===== src/Corepool.antt =====
-- src/corepool.c and the hand-over of a processor in src/core.c: the pools of cores that wait for work,
-- one pool for each processor, and the calls around a blocking section. The mutex of a pool makes
-- each push and pop one step. What the allocator and pthread_create answer are arguments.
pub mod Init
pub mod Stack
pub mod Block
mod Tests
use shiyanhui_libcsp.Base.{
  ℕ, zero, suc, ◌+◌, ◌-◌, ◌/◌, ◌%◌, Bool, true, false, not, ◌==◌, if◌then◌else◌, update, Option,
  none, some, ◌>>=◌,
}
use shiyanhui_libcsp.Exp.{csp_exp}
use shiyanhui_libcsp.Runq.{Ptr, null}
use shiyanhui_libcsp.Rbq.{Rbq}
use shiyanhui_libcsp.Rbq.Wait.{push}

-- `csp_core_pool_t`, without the queues, which are named by the processor.
pub record Pool : Type 0 where
  pub cap : ℕ
  pub top : ℕ
  pub cores : ℕ → Ptr

-- What `csp_core_pool_new` returns: NULL, a pool, or the address of a pool that it has freed.
pub data New : Type 0 where
  no_pool : New
  freed : New
  made : Pool → New

-- `for (size_t i = 0; i < cores_per_cpu; i++)`: `core_new i` is what csp_core_new gives.
unfoldable pub fill : (core_new : ℕ → Option Ptr) → (i n : ℕ) → (ℕ → Ptr) → Option (ℕ → Ptr)
fill core_new i zero cores = some cores
fill core_new i (suc n) cores =
    core_new i >>= (λ core. fill core_new (i + 1) n (update cores i core))

-- `csp_core_pool_new`: whether the pool is allocated, whether its queues and its array are, and what
-- the array holds at first.
unfoldable pub pool_new :
    (calloc parts : Bool)
    → (core_new : ℕ → Option Ptr) → (raw : ℕ → Ptr) → (cores_per_cpu : ℕ) → New
unfolding fill
pool_new calloc parts core_new raw n =
    if not calloc then no_pool else if not parts then freed else elim (fill core_new 0 n raw) [
      | none ↦ freed
      | some cores ↦ made (record { cap = n; top = n; cores = cores })
    ]

-- `cores_per_cpu` of `csp_core_pools_init`.
unfoldable pub cores_per_cpu : (max_threads np : ℕ) → ℕ
cores_per_cpu max_threads np = max_threads / np + (if max_threads % np == 0 then 0 else 1)

-- `grunq_cap_exp` of `csp_core_pools_init`.
unfoldable pub grunq_cap_exp : (max_procs_hint np : ℕ) → Option ℕ
unfolding csp_exp
grunq_cap_exp max_procs_hint np = csp_exp (max_procs_hint / np)

-- `csp_core_pools_t`.
pub record Pools : Type 0 where
  pub len : ℕ
  pub pools : ℕ → New

-- The loop of `csp_core_pools_init`, with `n` processors left.
unfoldable pub init_each : (pool_of : ℕ → New) → (i n : ℕ) → (ℕ → New) → Bool × Pools
init_each pool_of i zero pools = (true, record { len = i; pools = pools })
init_each pool_of i (suc n) pools =
    let pools1 = update pools i (pool_of i) in
    let rest = init_each pool_of (i + 1) n pools1 in
    elim (pool_of i) [
      | no_pool ↦ (false, record { len = i; pools = pools1 })
      | freed ↦ rest
      | made p ↦ rest
    ]

-- `csp_core_pools_init`, where the array of pools is allocated; `pool_of n i` is the result of
-- `csp_core_pool_new` for processor `i` with `n` cores.
unfoldable pub pools_init :
    (pool_of : (n i : ℕ) → New) → (max_threads np : ℕ) → (raw : ℕ → New) → Bool × Pools
unfolding init_each cores_per_cpu
pools_init pool_of max_threads np raw = init_each (pool_of (cores_per_cpu max_threads np)) 0 np raw

-- `csp_core_pool_push` and `csp_core_pool_pop`.
unfoldable pub pool_push : Pool → Ptr → Pool
pool_push p core = record p { cores = update p.cores p.top core; top = p.top + 1 }

unfoldable pub pool_pop : Pool → Option Ptr × Pool
pool_pop p =
    if p.top == 0 then (none, p) else (some (p.cores (p.top - 1)), record p { top = p.top - 1 })

-- The cores: their pools and global queues by processor, the fields `pid`, `state` and `running`.
pub record Cores : Type 0 where
  pub pools : ℕ → Pool
  pub grunqs : ℕ → Rbq Ptr
  pub pid : Ptr → ℕ
  pub inited : Ptr → Bool
  pub running : Ptr → Ptr

-- `csp_core_pools_get` and `csp_core_pools_put`.
unfoldable pub get : (pid : ℕ) → Cores → Option Ptr × Cores
unfolding pool_pop
get pid s =
    let (core, p) = pool_pop (s.pools pid) in (core, record s { pools = update s.pools pid p })

unfoldable pub put : (core : Ptr) → Cores → Cores
unfolding pool_push
put core s = record s {
  pools = update s.pools (s.pid core) (pool_push (s.pools (s.pid core)) core);
}

-- Who takes the processor over: nobody, a waiting thread that is woken, or a new thread.
pub data Next : Type 0 where
  nobody : Next
  wakes : Ptr → Next
  starts : Ptr → Next

-- The part of `csp_core_block_prologue` that follows `csp_core_pools_get`; `create` is whether the
-- thread of `csp_core_start` is created.
unfoldable pub take_over : (create : Bool) → Option Ptr → Cores → Next × Cores
unfolding put
take_over create none s = (nobody, s)
take_over create (some core) s =
    if not (s.inited core)
    then (wakes core, s)
    else if create
    then (starts core, s)
    else (nobody, put core s)

-- `csp_core_block_prologue`, which returns false for `nobody`.
unfoldable pub block_prologue : (create : Bool) → (this_core : Ptr) → Cores → Next × Cores
unfolding get take_over
block_prologue create this_core s =
    let (next, s1) = get (s.pid this_core) s in take_over create next s1

-- The start of `csp_core_run` in the new thread.
unfoldable pub run : (this_core : Ptr) → Cores → Cores
run this_core s = record s { inited = update s.inited this_core false }

-- `csp_core_block_epilogue_inner` up to the wait: the process goes to the global queue, which is
-- tried until it has room, and the core to its pool.
unfoldable pub block_epilogue :
    (fuel : ℕ)
    → (weak : ℕ → Bool × Bool) → (others : ℕ → Rbq Ptr → Rbq Ptr) → (this_core : Ptr) → Cores
    → Option Cores
unfolding put
block_epilogue fuel weak others this_core s =
    let pid = s.pid this_core in
    push fuel weak others (s.grunqs pid) (s.running this_core) >>= (λ q. some (
      put this_core
        (record s { grunqs = update s.grunqs pid q; running = update s.running this_core null })))
