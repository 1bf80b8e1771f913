-- ===== src/Sched/Hangup.antt =====
-- csp_sched_hangup of src/sched.c: a process that sleeps stands in the timer heap of its processor.
-- The switch to the core at the end, csp_core_yield, is modelled in Proc.
use shiyanhui_libcsp.Base.{ℕ, ◌+◌, ◌%◌, ◌^◌, Option, some, ◌>>=◌, ◌==◌, if◌then◌else◌, update}
use shiyanhui_libcsp.Runq.{Ptr, null}
use shiyanhui_libcsp.Timer.{Heap, put}
use shiyanhui_libcsp.Timer.Clock.{Clock}

-- `running` of a core and the timer heap of its processor.
pub record Sleeper : Type 0 where
  pub running : Ptr
  pub heap : Heap

-- `running->timer.when = now + nanoseconds`, as an int64_t.
abbrev pub due_at : (p : Ptr) → (time : ℕ) → Heap → Heap
due_at p time h = record h {
  slots = record h.slots { when = update h.slots.when p (time % 2 ^ 64) };
}

-- `csp_sched_hangup` up to the switch, where csp_timer_now gives `now`.
unfoldable pub hangup : (nanoseconds now : ℕ) → Sleeper → Option Sleeper
hangup nanoseconds now s =
    let put_off = put (due_at s.running (now + nanoseconds) s.heap) s.running in
    if nanoseconds == 0
    then some s
    else (put_off >>= (λ heap. some (record { running = null; heap = heap })))
