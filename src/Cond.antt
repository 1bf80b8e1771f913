-- ===== src/Cond.antt =====
-- src/cond.h: a core that waits on a condition and another thread that signals it, interleaved. A move
-- is one atomic access of one of the two threads.
pub mod Signal
mod Tests
use shiyanhui_libcsp.Base.{ℕ, Bool, true, false, List, [], ◌∷◌, ◌==◌, if◌then◌else◌}

-- `csp_cond_signal_none`, `csp_cond_signal_proc_avail` and `csp_cond_signal_deep_sleep`.
abbrev pub signal_none : ℕ
signal_none = 0

abbrev pub signal_proc_avail : ℕ
signal_proc_avail = 1

abbrev pub signal_deep_sleep : ℕ
signal_deep_sleep = 2

-- `csp_cond_t`.
pub record Cond : Type 0 where
  pub stat : ℕ
  pub waiting : Bool
  pub start : ℕ

-- `csp_cond_init`.
unfoldable pub init : Cond
init = record { stat = signal_none; waiting = false; start = 0 }

-- `csp_cond_before_wait` at the time `now`.
unfoldable pub before_wait : (now : ℕ) → Cond → Cond
before_wait now c = record c { start = now }

-- Where the waiting thread is in `csp_cond_wait`: at the load of `stat`, at the store of `waiting`, at
-- the three stores of `csp_cond_init` with the signal that it has read, or returned.
pub data Waiter : Type 0 where
  testing : Waiter
  marking : Waiter
  got : ℕ → Waiter
  clearing : ℕ → Waiter
  timing : ℕ → Waiter
  returned : ℕ → Waiter

-- Where the other thread is in `csp_cond_signal`: at the load of `waiting`, at the store of `stat`, or
-- behind it.
pub data Signaller : Type 0 where
  checking : Signaller
  storing : Signaller
  sent : Signaller

pub record State : Type 0 where
  pub cond : Cond
  pub waiter : Waiter
  pub signaller : Signaller

-- One access of `csp_cond_wait`.
unfoldable pub wait_at : Waiter → Cond → Waiter × Cond
wait_at testing c = (if c.stat == signal_none then marking else got c.stat, c)
wait_at marking c = (testing, record c { waiting = true })
wait_at (got n) c = (clearing n, record c { stat = signal_none })
wait_at (clearing n) c = (timing n, record c { waiting = false })
wait_at (timing n) c = (returned n, record c { start = 0 })
wait_at (returned n) c = (returned n, c)

-- One access of `csp_cond_signal`.
unfoldable pub signal_at : (signal : ℕ) → Signaller → Cond → Signaller × Cond
signal_at signal checking c = (if c.waiting then storing else checking, c)
signal_at signal storing c = (sent, record c { stat = signal })
signal_at signal sent c = (sent, c)

pub data Move : Type 0 where
  wait : Move
  signal : Move

unfoldable pub step : ℕ → Move → State → State
unfolding wait_at signal_at
step v wait s = let (w, c) = wait_at s.waiter s.cond in record s { waiter = w; cond = c }
step v signal s =
    let (g, c) = signal_at v s.signaller s.cond in record s { signaller = g; cond = c }

-- Any interleaving.
unfoldable pub run : ℕ → List Move → State → State
unfolding step
run v [] s = s
run v (m ∷ ms) s = run v ms (step v m s)

-- The two threads at the beginning, with the time that `csp_cond_before_wait` has noted.
unfoldable pub begin : (now : ℕ) → State
unfolding before_wait init
begin now = record { cond = before_wait now init; waiter = testing; signaller = checking }
