-- ===== src/Sched/Tests.antt =====
-- Four processors: the local queue of processor 1 has three processes, process 40 ran on it, and core
-- 0 starves.
use shiyanhui_libcsp.Base.{
  ℕ, ◌^◌, ◌≡◌, ◌/◌, ◌≢◌, refl, arith, false, Option, some, [], ◌∷◌, update, inr,
}
use shiyanhui_libcsp.Runq.{Ptr, Link, Links, Lrunq, new}
use shiyanhui_libcsp.Runq.Chain.{IsQueue, Detached}
use shiyanhui_libcsp.Rbq.{Rbq}
use shiyanhui_libcsp.Rbq.Ptr.{Pointer, multi, unset}
use shiyanhui_libcsp.Rbq.Inv.{IsPtr}
use shiyanhui_libcsp.Rbq.Ring.{IsRing, contents, window}
use shiyanhui_libcsp.Sched.{Sched, search, found, proc_exit}
use shiyanhui_libcsp.Sched.Search.{Searched, search-Searched}
use shiyanhui_libcsp.Sched.Share.{Leaves, Shared, found-Shared}
use shiyanhui_libcsp.Timer.Clock.{Clock}
use shiyanhui_libcsp.Sched.Hangup.{Sleeper}
use shiyanhui_libcsp.Sched.Exit.{exits, exits-parent}

abbrev idle : Pointer
idle = record { kind = multi; next = 5; barr = 5; stats = λ i. unset }

abbrev ring : Rbq ℕ
ring = record { items = λ i. 0; cap = 4; mask = 3; slow = idle; fast = idle }

abbrev one : Rbq ℕ
one = record ring { fast = record idle { next = 6; barr = 6 } }

idle-IsPtr : IsPtr (2 ^ 2) idle
idle-IsPtr = record {
  barr_le = omega arith;
  near = omega arith;
  exact = λ q. absurd (cc);
  marked = λ q i lo hi. absurd (omega arith);
  older = λ q s. inr refl;
}

ring-IsRing : IsRing 2 ring
ring-IsRing = record {
  cap = refl;
  mask = refl;
  size = omega arith;
  slow = idle-IsPtr;
  fast = idle-IsPtr;
  order = omega arith;
  room = omega arith;
  range = omega arith;
}

one-IsRing : IsRing 2 one
one-IsRing = record {
  cap = refl;
  mask = refl;
  size = omega arith;
  slow = idle-IsPtr;
  fast = record {
    barr_le = omega arith;
    near = omega arith;
    exact = λ q. absurd (cc);
    marked = λ q i lo hi. absurd (omega arith);
    older = λ q s. inr refl;
  };
  order = omega arith;
  room = omega arith;
  range = omega arith;
}

abbrev link : Ptr → Ptr → Link
link p n = record { pre = p; next = n }

abbrev links : Links
links = update (update (update (λ _. link 0 0) 10 (link 0 20)) 20 (link 10 30)) 30 (link 20 0)

abbrev three : Lrunq
three = record { head = 10; tail = 30; len = 3; poped_times = 31 }

three-IsQueue : IsQueue links three (10 ∷ 20 ∷ 30 ∷ [])
three-IsQueue = ground arith

-- Process 40 waits for `waits` children.
abbrev sched : (waits : ℕ) → Sched
sched waits = record {
  lrunqs = update (λ g. new) 1 three;
  links = links;
  grunqs = λ g. ring;
  starving_procs = one;
  nchild = update (λ p. 0) 40 waits;
  running = 40;
}

-- The first pop is a miss, the global queue is empty, and the second pop gives the first process.
search-Searched_example :
    (r : Option Ptr × Sched) × (search (λ i. (false, false)) 4 1 (sched 0) ≡ some r)
    × Searched 4 1 (10 ∷ 20 ∷ 30 ∷ []) (sched 0) r.0 r.1
search-Searched_example =
    search-Searched 2 4 1 (λ i. (false, false)) (10 ∷ 20 ∷ 30 ∷ []) (sched 0) (omega arith)
      (λ i. refl) (λ g. ring-IsRing) (three-IsQueue, omega arith)

forty-Leaves : (waits : ℕ) → Leaves (10 ∷ 20 ∷ 30 ∷ []) (sched waits)
forty-Leaves waits = record { alone = λ n. ground arith; new = refl; room = omega arith }

starving_zero : contents one ≡ 0 ∷ []
unfolding window
starving_zero = refl

found-Shared_example :
    (r : Option ℕ × Sched) × (found (false, false) 1 (sched 0) ≡ some r)
    × Shared 1 (10 ∷ 20 ∷ 30 ∷ 40 ∷ []) (sched 0) r.0 r.1
found-Shared_example =
    found-Shared 2 1 (10 ∷ 20 ∷ 30 ∷ []) (sched 0) three-IsQueue (forty-Leaves 0)
      (rw starving_zero refl) one-IsRing

forty-Detached : Detached links 40
forty-Detached = ground arith

-- Three children of process 40 end, the last one on processor 1.
exits-parent_example :
    (s1 : Sched) × (s2 : Sched) × (exits 40 (0 ∷ 2 ∷ []) (sched 3) ≡ some s1)
    × (s1.lrunqs ≡ (sched 3).lrunqs)
    × (proc_exit 1 40 s1 ≡ some s2)
    × (s2.nchild 40 ≡ 0)
    × IsQueue s2.links (s2.lrunqs 1) (40 ∷ 10 ∷ 20 ∷ 30 ∷ [])
    × ((g : ℕ) → g ≢ 1 → s2.lrunqs g ≡ (sched 3).lrunqs g)
exits-parent_example =
    exits-parent 40 (0 ∷ 2 ∷ []) 1 (10 ∷ 20 ∷ 30 ∷ []) (sched 3) refl (omega arith) three-IsQueue
      forty-Detached refl (omega arith)

-- Process 40 hangs itself up at 100 for 7 nanoseconds, with an empty timer heap.
abbrev sleeper : Sleeper
sleeper = record {
  running = 40;
  heap = record {
    cap = 64;
    len = 0;
    room = 64;
    slots = record { procs = λ i. 0; idx = λ p. 0; when = λ p. 0 };
    token = 0;
    tokens = λ p. 0;
  };
}

-- The heap's time 50 was read when the clock stood at 5000000; 200000 cycles later it is 250.
abbrev core_clock : Clock
core_clock = record { time = 50; clock = 5000000 }

abbrev seconds : ℕ → ℕ
seconds d = d / 1000
