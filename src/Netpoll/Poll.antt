-- ===== src/Netpoll/Poll.antt =====
-- csp_netpoll_poll of src/netpoll.c wakes exactly the processes whose events are there, and lists them
-- as a run queue.
use shiyanhui_libcsp.Base.{
  ℕ, suc, ◌+◌, ◌^◌, ◌<◌, ◌≤◌, ◌≡◌, refl, sym, ap, ◌∙◌, arith, Bool, true, false, List, [], ◌∷◌,
  ◌++◌, ◌==◌, has, has-append, length, length-append, subst, inl, inr, Bool-cases, ◌&&◌, ◌||◌,
  bit_and,
}
use shiyanhui_libcsp.Runq.{Ptr, null, new, set}
use shiyanhui_libcsp.Runq.Chain.{IsQueue}
use shiyanhui_libcsp.Netpoll.{
  stat_waiting, stat_avail, Netpoll, Event, Woken, stat_cas, mask_of, poll_event, poll_events,
  nobody, poll,
}
use shiyanhui_libcsp.Netpoll.Join.{wakes, served, Listed, WaitersDetached, join-Listed}

or_false : (b : Bool) → (b || false) ≡ b
or_false true = refl
or_false false = refl

and_nothing : (b x y z : Bool) → b ≡ (b || (x && y && z && false))
and_nothing true x y z = refl
and_nothing false x y z = ground arith

-- One event at a list `xs`.
record Step (s0 : Netpoll) (evt : Event) (xs : List Ptr) (r : Woken × Netpoll) : Type 0 where
  listed : List Ptr
  fits : Listed s0 listed r.0 r.1
  exact : (p : Ptr) → has p listed ≡ (has p xs || wakes s0 evt p)
  longer : length listed ≤ length xs + 1

poll_event-Step :
    (s0 : Netpoll) (evt : Event) (xs : List Ptr) (l : Woken) (s : Netpoll)
    → WaitersDetached s0
    → Listed s0 xs l s
    → suc (length xs) < 2 ^ 64
    → Step s0 evt xs (poll_event false evt l s)
unfolding poll_event stat_cas
poll_event-Step s0 evt xs l s d v room =
    let w = s0.waiters evt.fd in
    let same : s.waiters evt.fd ≡ w = ap (λ f. f evt.fd) v.waiters in
    elim (Bool-cases (w.proc == null)) [
      | inl nobody_waits ↦
          rw (same, nobody_waits)
            (record {
              listed = xs;
              fits = v;
              exact = λ p. sym (rw nobody_waits (or_false (has p xs)));
              longer = omega arith;
            })
      | inr somebody ↦ elim (Bool-cases (bit_and (mask_of evt.events) w.waiting_evt == 0)) [
        | inl other ↦
            rw (same, somebody, other)
              (record {
                listed = xs;
                fits = v;
                exact = λ p. sym (rw (somebody, other) (or_false (has p xs)));
                longer = omega arith;
              })
        | inr this ↦ elim (Bool-cases (has w.proc xs)) [
          | inl before ↦
              let (was, now) = v.woken w.proc before in
              rw (same, somebody, this, now)
                (record {
                  listed = xs;
                  fits = v;
                  exact = λ p. elim (Bool-cases (w.proc == p)) [
                    | inl is ↦
                        let eq : w.proc ≡ p = ground arith in
                        let old : has p xs ≡ true = subst (λ q. has q xs ≡ true) eq before in
                        rw old refl
                    | inr isnt ↦
                        rw (isnt, somebody, this)
                          (and_nothing (has p xs) true true (s0.stats w.proc == stat_waiting))
                  ];
                  longer = omega arith;
                })
          | inr fresh ↦
              let (stat, link) = v.others w.proc fresh in
              elim (Bool-cases (s0.stats w.proc == stat_waiting)) [
                | inl waits ↦
                    rw (same, somebody, this, stat, waits)
                      (record {
                        listed = xs ++ w.proc ∷ [];
                        fits = join-Listed s0 xs l _ s w.proc d v fresh (ground arith) room;
                        exact = λ p.
                            has-append p xs (w.proc ∷ [])
                            ∙ rw (somebody, this, waits)
                                (ap (λ b. has p xs || b) (or_false (w.proc == p)));
                        longer = omega (arith, length-append xs (w.proc ∷ []));
                      })
                | inr gone ↦
                    rw (same, somebody, this, stat, gone)
                      (record {
                        listed = xs;
                        fits = v;
                        exact = λ p. sym (rw (somebody, this, gone) (or_false (has p xs)));
                        longer = omega arith;
                      })
              ]
        ]
      ]
    ]

-- The loop over the events, from a list `xs` on.
record Loop (s0 : Netpoll) (evts : List Event) (xs : List Ptr) (r : Woken × Netpoll) : Type 0 where
  listed : List Ptr
  fits : Listed s0 listed r.0 r.1
  exact : (p : Ptr) → has p listed ≡ (has p xs || served s0 evts p)

or_assoc : (a b c : Bool) → ((a || b) || c) ≡ (a || (b || c))
or_assoc true b c = refl
or_assoc false b c = refl

poll_events-Loop :
    (s0 : Netpoll) (weak : ℕ → Bool) (evts : List Event) (xs : List Ptr) (l : Woken) (s : Netpoll)
    → ((i : ℕ) → weak i ≡ false)
    → WaitersDetached s0
    → Listed s0 xs l s
    → length xs + length evts < 2 ^ 64
    → Loop s0 evts xs (poll_events weak evts l s)
unfolding poll_events
poll_events-Loop s0 weak [] xs l s w d v room = record {
  listed = xs;
  fits = v;
  exact = λ p. sym (or_false (has p xs));
}
poll_events-Loop s0 weak (evt ∷ evts) xs l s w d v room = rw (w 0) (
    let step = poll_event-Step s0 evt xs l s d v (omega arith) in
    let (l1, s1) = poll_event false evt l s in
    let rest =
      poll_events-Loop s0 (λ i. weak (i + 1)) evts step.listed l1 s1 (λ i. w (i + 1)) d step.fits
        (omega (arith, step.longer)) in
    record {
      listed = rest.listed;
      fits = rest.fits;
      exact = λ p.
          rest.exact p
          ∙ ap (λ b. b || served s0 evts p) (step.exact p)
          ∙ or_assoc (has p xs) (wakes s0 evt p) (served s0 evts p);
    })

-- What a poll comes to: the processes `listed` are those that an event wakes, each once; between
-- `head` and `tail` they are a run queue, their state is available, and no other process changes.
pub record Polled (s : Netpoll) (evts : List Event) (l : Woken) (s' : Netpoll) : Type 0 where
  pub listed : List Ptr
  pub exact : (p : Ptr) → has p listed ≡ served s evts p
  pub queue : IsQueue s'.links (set new l.len l.head l.tail) listed
  pub woken : (p : Ptr) → has p listed ≡ true → s'.stats p ≡ stat_avail
  pub others :
      (p : Ptr) → has p listed ≡ false → (s'.stats p ≡ s.stats p) × (s'.links p ≡ s.links p)

-- Where every process that waits is on no queue and no compare-exchange fails, csp_netpoll_poll lists
-- each process once for which an event stands that it waits for, and no other, marks it
-- available, and csp_lrunq_set of the list gives a well-formed run queue of these processes; no
-- other process changes.
pub poll-Polled :
    (s : Netpoll) (weak : ℕ → Bool) (evts : List Event)
    → ((i : ℕ) → weak i ≡ false)
    → WaitersDetached s
    → length evts < 2 ^ 64
    → Polled s evts (poll weak evts s).0 (poll weak evts s).1
unfolding poll
poll-Polled s weak evts w d room =
    let none_yet : Listed s [] nobody s = record {
      queue = record {
        chain = refl;
        tail = refl;
        distinct = tt;
        counted = refl;
        small = omega arith;
      };
      woken = λ p h. absurd (cc);
      others = λ p h. (refl, refl);
      waiters = refl;
    } in
    let r = poll_events-Loop s weak evts [] nobody s w d none_yet (omega arith) in
    record {
      listed = r.listed;
      exact = r.exact;
      queue = r.fits.queue;
      woken = λ p h. (r.fits.woken p h).1;
      others = r.fits.others;
    }
