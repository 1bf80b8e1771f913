-- ===== src/Sched.antt =====
-- csp_sched_get of src/sched.c and csp_core_proc_exit of src/core.c: how a core finds the next process.
-- A processor has a local run queue (Runq) and a global one (Rbq); both are named by its number, as
-- is the core that runs on it. The atomic operations of the wait are those of Cond.
pub mod Share
pub mod Steal
pub mod Search
pub mod Exit
pub mod Hangup
mod Tests
use shiyanhui_libcsp.Base.{
  ℕ, zero, suc, ◌+◌, ◌-◌, ◌/◌, ◌%◌, ◌^◌, Bool, true, false, Option, none, some, ◌==◌, not, ◌&&◌,
  if◌then◌else◌, update, ◌>>=◌,
}
use shiyanhui_libcsp.Runq.{
  Ptr, null, Links, Lrunq, Popped, ok, failed, missed, push, push_front, try_pop_front, popm_front,
  set,
}
use shiyanhui_libcsp.Rbq.{Rbq, try_pop}

-- The queues that the cores share, the links and the child counts of the processes, and the process
-- that runs on the core that looks for the next one.
pub record Sched : Type 0 where
  pub lrunqs : ℕ → Lrunq
  pub links : Links
  pub grunqs : ℕ → Rbq Ptr
  pub starving_procs : Rbq ℕ
  pub nchild : Ptr → ℕ
  pub running : Ptr

-- `running != NULL && csp_proc_nchild_get(running) == 0`.
abbrev pub runnable : Sched → Bool
runnable s = not (s.running == null) && (s.nchild s.running == 0)

-- `csp_lrunq_try_pop_front` of a processor's queue.
unfoldable pub pop_local : (pid : ℕ) → Sched → Option (Popped × Sched)
pop_local pid s =
    try_pop_front (s.lrunqs pid) s.links
    >>= (λ r. some (r.0, record s { lrunqs = update s.lrunqs pid r.1; links = r.2 }))

-- `csp_grunq_try_pop` of a processor's queue; `weak` says which compare-exchanges fail.
unfoldable pub pop_global : (weak : Bool × Bool) → (pid : ℕ) → Sched → Option Ptr × Sched
pop_global weak pid s =
    let (item, q) = try_pop weak.0 weak.1 (s.grunqs pid) in
    (item, record s { grunqs = update s.grunqs pid q })

-- The second pop of the local queue, which counts only if it gives a process.
abbrev pub if_ok : Popped → Option Ptr
if_ok (ok p) = some p
if_ok failed = none
if_ok missed = none

-- The operands of `&&` behind a miss: the global queue, then the local one again.
unfoldable pub on_miss : (weak : Bool × Bool) → (pid : ℕ) → Sched → Option (Option Ptr × Sched)
unfolding pop_local pop_global
on_miss weak pid s =
    let r = pop_global weak pid s in
    elim r.0 [
      | some p ↦ some (some p, r.1)
      | none ↦ pop_local pid r.1 >>= (λ t. some (if_ok t.0, t.1))
    ]

-- The condition of the first `goto found`, by the answer of the first pop.
unfoldable pub by_code :
    (weak : Bool × Bool) → (pid : ℕ) → Popped → Sched → Option (Option Ptr × Sched)
unfolding on_miss
by_code weak pid (ok p) s = some (some p, s)
by_code weak pid failed s = some (none, s)
by_code weak pid missed s = on_miss weak pid s

unfoldable pub own_queues : (weak : Bool × Bool) → (pid : ℕ) → Sched → Option (Option Ptr × Sched)
unfolding pop_local by_code
own_queues weak pid s = pop_local pid s >>= (λ r. by_code weak pid r.0 r.1)

-- `if (++pid == csp_sched_np) pid = 0;`
abbrev pub next_pid : (np pid : ℕ) → ℕ
next_pid np pid = if pid + 1 == np then 0 else pid + 1

-- The loop over the global queues, with `n` of them left.
unfoldable pub steal : (weak : ℕ → Bool × Bool) → (np n pid : ℕ) → Sched → Option Ptr × Sched
unfolding pop_global
steal weak np zero pid s = (none, s)
steal weak np (suc n) pid s =
    let r = pop_global (weak n) pid s in
    elim r.0 [ some p ↦ (some p, r.1) | none ↦ steal weak np n (next_pid np pid) r.1 ]

-- The search of one round: the processor's own queues, then every global queue.
unfoldable pub search :
    (weak : ℕ → Bool × Bool) → (np pid : ℕ) → Sched → Option (Option Ptr × Sched)
unfolding own_queues steal
search weak np pid s =
    own_queues (weak np) pid s
    >>= (λ r. elim r.0 [ some p ↦ some (some p, r.1) | none ↦ some (steal weak np np pid r.1) ])

-- `if (running != NULL && csp_proc_nchild_get(running) == 0) csp_lrunq_push(...)`.
unfoldable pub put_back : (pid : ℕ) → Sched → Option Sched
put_back pid s =
    if runnable s
    then (push (s.lrunqs pid) s.running s.links
        >>= (λ r. some (record s { lrunqs = update s.lrunqs pid r.0; links = r.1 })))
    else some s

-- The half of the processes for the starving core `other`.
unfoldable pub hand_over : (pid other half : ℕ) → Sched → Option Sched
hand_over pid other half s = popm_front (s.lrunqs pid) half s.links >>= (λ r.
    let lrunqs = update s.lrunqs pid r.1 in
    some (record s {
      lrunqs = update lrunqs other (set (lrunqs other) half r.0.0 r.0.1);
      links = r.2;
    }))

-- From the label `found` to the return; the core that is signalled, if one is.
unfoldable pub found : (weak : Bool × Bool) → (pid : ℕ) → Sched → Option (Option ℕ × Sched)
unfolding put_back hand_over
found weak pid s = put_back pid s >>= (λ s1.
    let half = ((s1.lrunqs pid).len + 1) % 2 ^ 64 / 2 in
    if half == 0
    then some (none, s1)
    else (let (core, q) = try_pop weak.0 weak.1 s1.starving_procs in
        let s2 = record s1 { starving_procs = q } in
        elim core [
          | none ↦ some (none, s2)
          | some other ↦ hand_over pid other half s2 >>= (λ s3. some (some other, s3))
        ]))

-- What one round of `while (true)` comes to: the process to run and the core signalled, or a wait.
pub data Round : Type 0 where
  run : Ptr → Option ℕ → Round
  wait : Round

-- One round of `csp_sched_get`; the wait is csp_cond_wait, and another round follows it.
unfoldable pub get_round : (weak : ℕ → Bool × Bool) → (np pid : ℕ) → Sched → Option (Round × Sched)
unfolding search found
get_round weak np pid s = search weak np pid s >>= (λ r. elim r.0 [
  | some p ↦ found (weak (np + 1)) pid r.1 >>= (λ t. some (run p t.0, t.1))
  | none ↦ some (if runnable s then run s.running none else wait, r.1)
])

-- `csp_core_proc_exit` up to the switch: the parent with no children left goes to the front of the
-- local queue.
unfoldable pub proc_exit : (pid : ℕ) → (parent : Ptr) → Sched → Option Sched
proc_exit pid parent s =
    if parent == null
    then some (record s { running = null })
    else (let count = s.nchild parent in
        let s1 = record s { nchild = update s.nchild parent ((count + 2 ^ 64 - 1) % 2 ^ 64) } in
        if count == 1
        then (push_front (s1.lrunqs pid) parent s1.links >>= (λ r.
            some (record s1 { lrunqs = update s1.lrunqs pid r.0; links = r.1; running = null })))
        else some (record s1 { running = null }))
