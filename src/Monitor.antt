-- ===== src/Monitor.antt =====
-- src/monitor.c: what the monitor thread does with the processes that a poll of Netpoll or Timer has
-- made ready. As in Sched, a processor's queues and the core that runs on it are named by the
-- processor's number. A round here runs with no other thread between its steps; a wait for room in a
-- queue is counted by fuel.
pub mod Parts
pub mod Place
pub mod Poll
pub mod Rest
pub mod Events
pub mod Timers
mod Tests
use shiyanhui_libcsp.Base.{
  ℕ, zero, suc, ◌+◌, ◌-◌, ◌*◌, ◌%◌, ◌^◌, Bool, true, false, List, [], ◌∷◌, ◌==◌, ltb, leb,
  if◌then◌else◌, update, length, Option, none, some, ◌>>=◌,
}
use shiyanhui_libcsp.Rand.{Rand, csp_rand}
use shiyanhui_libcsp.Runq.{Ptr, null, Links, Lrunq, set}
use shiyanhui_libcsp.Rbq.{Rbq, try_pop, try_pushm, try_popm}

-- `csp_monitor_procs_len`, `csp_monitor_cores_len` and `csp_monitor_max_sleep_microsecs`.
abbrev pub procs_len : ℕ
procs_len = 16

abbrev pub cores_len : ℕ
cores_len = 2048

abbrev pub max_sleep_microsecs : ℕ
max_sleep_microsecs = 10000

-- `csp_monitor_procs_put_list`: the processes that are put into the array, the new start, the links.
unfoldable pub procs_put_list : (max_len : ℕ) → (start : Ptr) → Links → List Ptr × Ptr × Links
procs_put_list zero start h = ([], start, h)
procs_put_list (suc n) start h =
    let next = (h start).next in
    let rest = procs_put_list n next (update h start (record { pre = null; next = null })) in
    if start == null then ([], start, h) else (start ∷ rest.0, rest.1, rest.2)

-- `while (!csp_grunq_try_pushm(...))`, from the queue of processor `pid` on.
unfoldable pub push_procs :
    (fuel : ℕ)
    → (weak : ℕ → Bool × Bool) → (np : ℕ) → List Ptr
    → (pid : ℕ) → (ℕ → Rbq Ptr)
    → Option (ℕ → Rbq Ptr)
push_procs zero weak np procs pid grunqs = none
push_procs (suc n) weak np procs pid grunqs =
    let (pushed, q) = try_pushm (weak 0).0 (weak 0).1 (grunqs pid) procs in
    let grunqs1 = update grunqs pid q in
    let next = if leb np (pid + 1) then 0 else pid + 1 in
    let rest = push_procs n (λ i. weak (i + 1)) np procs next grunqs1 in
    if pushed then some grunqs1 else rest

-- What the loop over the parts of the list changes.
pub record Spreading : Type 0 where
  pub links : Links
  pub grunqs : ℕ → Rbq Ptr
  pub rand : Rand

-- The `while (true)` of `csp_monitor_poll`; a part has `tries` tries.
unfoldable pub spread :
    (fuel tries : ℕ)
    → (weak : ℕ → ℕ → Bool × Bool) → (np : ℕ) → (start : Ptr) → Spreading
    → Option Spreading
spread zero tries weak np start s = none
spread (suc n) tries weak np start s =
    let (procs, next, links) = procs_put_list procs_len start s.links in
    let (number, rand) = csp_rand s.rand in
    elim procs [
      | [] ↦ some s
      | p ∷ ps ↦ push_procs tries (weak n) np (p ∷ ps) (number % np) s.grunqs >>= (λ grunqs.
          spread n tries weak np next (record { links = links; grunqs = grunqs; rand = rand }))
    ]

-- The state that the monitor shares with the cores.
pub record Monitor : Type 0 where
  pub lrunqs : ℕ → Lrunq
  pub spreading : Spreading
  pub starving_procs : Rbq ℕ
  pub starving_threads : Rbq ℕ

-- What a round came to: nothing, all processes for one core, which is signalled, or parts for the
-- global queues, with a thread that is woken.
pub data Outcome : Type 0 where
  nothing : Outcome
  signals : (core : ℕ) → Outcome
  spreads : (woken : Option ℕ) → Outcome

-- `csp_monitor_poll` where the poll gives `n` processes from `start` to `end`; it returns false for
-- `nothing`. `weak0` and `weak1` are the failures of the pops of starving cores.
unfoldable pub poll :
    (fuel tries : ℕ)
    → (weak0 weak1 : Bool × Bool) → (weak : ℕ → ℕ → Bool × Bool) → (np n : ℕ) → (start end : Ptr)
    → Monitor
    → Option (Outcome × Monitor)
poll fuel tries weak0 weak1 weak np n start end s =
    let (core, q) = try_pop weak0.0 weak0.1 s.starving_procs in
    let s1 = record s { starving_procs = q } in
    if n == 0 then some (nothing, s) else elim core [
      | some c ↦
          some (signals c, record s1 { lrunqs = update s.lrunqs c (set (s.lrunqs c) n start end) })
      | none ↦ spread fuel tries weak np start s.spreading >>= (λ t.
          let (woken, threads) = try_pop weak1.0 weak1.1 s.starving_threads in
          some (spreads woken, record s1 { spreading = t; starving_threads = threads }))
    ]

-- `duration` after a round of `csp_monitor`.
unfoldable pub next_duration : (found : Bool) → (duration : ℕ) → ℕ
next_duration found duration =
    if found
    then 1
    else if ltb max_sleep_microsecs (duration * 2)
    then max_sleep_microsecs
    else duration * 2

-- `since_last_checked` after a round.
unfoldable pub next_checked : (found : Bool) → (duration since_last_checked : ℕ) → ℕ
next_checked found duration since_last_checked =
    since_last_checked + (if found then max_sleep_microsecs else duration)

-- The loop over the starving cores: those that have waited for more than a second are told to sleep
-- deeply, the others stay. `start c` is when core `c` began to wait.
unfoldable pub check_cores : (now : ℕ) → (start : ℕ → ℕ) → List ℕ → List ℕ × List ℕ
check_cores now start [] = ([], [])
check_cores now start (c ∷ cs) =
    let rest = check_cores now start cs in
    if ltb (10 ^ 9) (now - start c) then (c ∷ rest.0, rest.1) else (rest.0, c ∷ rest.1)
