-- ===== src/Monitor/Tests.antt =====
-- A round of the monitor on two processors, with the network of Netpoll's tests.
use shiyanhui_libcsp.Base.{
  ℕ, ◌^◌, ◌≡◌, ◌==◌, refl, sym, ◌∙◌, arith, true, false, List, [], ◌∷◌, if◌then◌else◌, inl, inr,
  Bool-cases, has, some,
}
use shiyanhui_libcsp.Runq.{Ptr, null, Links}
use shiyanhui_libcsp.Rbq.{Rbq}
use shiyanhui_libcsp.Rbq.Ptr.{single, Pointer, unset}
use shiyanhui_libcsp.Rbq.Inv.{IsPtr}
use shiyanhui_libcsp.Rbq.Ring.{IsRing, window}
use shiyanhui_libcsp.Netpoll.{
  Netpoll, Event, epollin, epollhup, poll_events, poll_event, stat_cas, mask_of, link_up, poll,
}
use shiyanhui_libcsp.Netpoll.Join.{WaitersDetached, served}
use shiyanhui_libcsp.Monitor.{Monitor, Outcome}
use shiyanhui_libcsp.Monitor.Poll.{Handled}
use shiyanhui_libcsp.Monitor.Events.{poll_network, poll_network-Handled}
use shiyanhui_libcsp.Timer.{Heap, get, expire, del}
use shiyanhui_libcsp.Timer.Order.{Among}
use shiyanhui_libcsp.Timer.Heaps.{poll_heaps, join_batch, poll as timer_poll}
use shiyanhui_libcsp.Timer.Due.{due_in}
use shiyanhui_libcsp.Timer.Sweep.{AreHeaps}
use shiyanhui_libcsp.Monitor.Timers.{poll_timers, poll_timers-Handled}

-- The processes of the descriptors 1 and 2 wait for input.
abbrev network : Netpoll
network = record {
  waiters = λ fd. record {
    registered = true;
    waiting_evt = epollin;
    proc = if fd == 1 then 100 else if fd == 2 then 200 else null;
    timer = null;
  };
  stats = λ p. if p == null then 0 else 1;
  links = λ p. record { pre = null; next = null };
}

abbrev events : List Event
events = record { events = epollhup; fd = 2 } ∷ record { events = epollin; fd = 1 } ∷ []

network-WaitersDetached : WaitersDetached network
network-WaitersDetached = λ p e. record { ne_null = ground arith; no_pre = refl; no_next = refl }

abbrev idle : Pointer
idle = record { kind = single; next = 5; barr = 5; stats = λ i. unset }

abbrev ring : Rbq ℕ
ring = record { items = λ i. i; cap = 4; mask = 3; slow = idle; fast = idle }

idle-IsPtr : IsPtr (2 ^ 2) idle
idle-IsPtr = record {
  barr_le = omega arith;
  near = omega arith;
  exact = λ _. refl;
  marked = λ q i lo hi. absurd (omega arith);
  older = λ q s. inr refl;
}

ring-IsRing : IsRing 2 ring
ring-IsRing = record {
  cap = refl;
  mask = refl;
  size = omega arith;
  slow = idle-IsPtr;
  fast = idle-IsPtr;
  order = omega arith;
  room = omega arith;
  range = omega arith;
}

abbrev monitor : Monitor
monitor = record {
  lrunqs = λ i. record { head = null; tail = null; len = 0; poped_times = 0 };
  spreading = record {
    links = (poll (λ i. false) events network).1.links;
    grunqs = λ i. ring;
    rand = record { s0 = 1; s1 = 2; s2 = 3; s3 = 4 };
  };
  starving_procs = ring;
  starving_threads = ring;
}

poll_network-Handled_example :
    (listed : List Ptr) × ((p : Ptr) → has p listed ≡ served network events p)
    × (r : Outcome × Monitor) × (poll_network 2 events network monitor ≡ some r)
    × Handled 2 2 monitor listed r
unfolding poll poll_events poll_event stat_cas mask_of link_up window
poll_network-Handled_example =
    poll_network-Handled 2 0 events network monitor network-WaitersDetached (omega arith) refl
      (λ j. ring-IsRing) (λ j. omega arith) ring-IsRing (omega arith) (omega arith)

-- The first of two timer heaps holds the process 40, due at 6.
abbrev heaps : ℕ → Heap
heaps i = record {
  cap = 64;
  len = if i == 0 then 1 else 0;
  room = 64;
  slots = record { procs = λ i. 40; idx = λ p. 0; when = λ p. 6 };
  token = 1;
  tokens = λ p. 0;
}

abbrev no_links : Links
no_links p = record { pre = null; next = null }

only_first : (i : ℕ) (p : Ptr) → Among (heaps i).len (heaps i).slots p → (i ≡ 0) × (40 ≡ p)
only_first i p (below, is) = elim (Bool-cases (i == 0)) [
  | inl zero_th ↦ (ground arith, is)
  | inr other ↦ absurd (let b = rw other at below in omega (arith, b))
]

heaps-AreHeaps : AreHeaps 2 heaps no_links
heaps-AreHeaps = record {
  heap = λ k b. record { placed = λ i h. ground arith; ordered = λ c p h. omega arith };
  one_heap = λ j k p b c x y. (only_first j p x).0 ∙ sym (only_first k p y).0;
  detached = λ k p b x.
      let is = (only_first k p x).1 in
      record { ne_null = λ t. absurd (omega (arith, is, t)); no_pre = refl; no_next = refl };
}

abbrev timer_monitor : Monitor
timer_monitor = record monitor {
  spreading = record {
    links = (timer_poll 2 (λ i. 7) heaps no_links).batch.links;
    grunqs = λ i. ring;
    rand = record { s0 = 1; s1 = 2; s2 = 3; s3 = 4 };
  };
}

one_due : (timer_poll 2 (λ i. 7) heaps no_links).batch.total ≡ 1
unfolding timer_poll poll_heaps join_batch get expire del
one_due = refl

poll_timers-Handled_example :
    (listed : List Ptr) × ((p : Ptr) → has p listed ≡ due_in 2 (λ i. 7) heaps p)
    × (r : Outcome × Monitor) × (poll_timers 2 2 (λ i. 7) heaps no_links timer_monitor ≡ some r)
    × Handled 2 2 timer_monitor listed r
unfolding window
poll_timers-Handled_example =
    poll_timers-Handled 2 0 2 (λ i. 7) heaps no_links timer_monitor heaps-AreHeaps (omega arith)
      refl (λ j. ring-IsRing) (λ j. omega (arith, one_due)) ring-IsRing (omega arith)
      (omega (arith, one_due))
