-- ===== src/Netpoll/Once.antt =====
-- The polls and the timeouts of src/netpoll.c compete for a process that waits.
use shiyanhui_libcsp.Base.{
  ℕ, ◌+◌, ◌≡◌, ◌≢◌, refl, sym, ap, ◌∙◌, Bool, true, false, not, ◌&&◌, List, [], ◌∷◌, if◌then◌else◌,
  eq→==, ne→==, ◌==◌, ltb, bit_and, Bool-cases, inl, inr, arith,
}
use shiyanhui_libcsp.Runq.{Ptr, null}
use shiyanhui_libcsp.Netpoll.{
  stat_waiting, stat_avail, stat_timeout, Netpoll, Event, Woken, stat_cas, mask_of, wait, resume,
  on_timeout, poll_event,
}

-- What may come to any process: an event in a poll, or the end of its timeout.
pub data Racer : Type 0 where
  by_event : (weak : Bool) → Event → Racer
  by_timeout : (weak : Bool) → Ptr → Racer

-- The process that it comes to.
abbrev pub target : Racer → Netpoll → Ptr
target (by_event weak evt) s = (s.waiters evt.fd).proc
target (by_timeout weak proc) s = proc

-- Whether the process is woken: the list of the poll grows, or the handler says so.
unfoldable pub attempt : Racer → Woken → Netpoll → Bool × Woken × Netpoll
unfolding poll_event on_timeout
attempt (by_event weak evt) l s =
    let (l1, s1) = poll_event weak evt l s in (ltb l.len l1.len, l1, s1)
attempt (by_timeout weak proc) l s = let (won, s1) = on_timeout weak proc s in (won, l, s1)

-- The attempts one after the other, and those that woke `p`.
unfoldable pub race : Ptr → List Racer → Woken → Netpoll → List Racer × Netpoll
unfolding attempt
race p [] l s = ([], s)
race p (r ∷ rs) l s =
    let (won, l1, s1) = attempt r l s in
    let (others, s2) = race p rs l1 s1 in
    (if won && (target r s == p) then r ∷ others else others, s2)

-- Whether it is for the process `p`, which waits for `evt` at `fd`, and its compare-exchange does not
-- fail for no reason.
abbrev pub counts : (p : Ptr) → (fd evt : ℕ) → Racer → Bool
counts p fd evt (by_event weak e) =
    not weak && (e.fd == fd) && not (bit_and (mask_of e.events) evt == 0)
counts p fd evt (by_timeout weak proc) = not weak && (proc == p)

-- The first of them that counts.
abbrev pub first : (p : Ptr) → (fd evt : ℕ) → List Racer → List Racer
first p fd evt [] = []
first p fd evt (r ∷ rs) = if counts p fd evt r then r ∷ [] else first p fd evt rs

-- The state that it leaves.
abbrev pub outcome : List Racer → ℕ
outcome [] = stat_waiting
outcome (by_event weak evt ∷ rs) = stat_avail
outcome (by_timeout weak proc ∷ rs) = stat_timeout

-- `p` waits for `evt` at `fd` and at no other descriptor.
pub record WaitsAt (p : Ptr) (fd evt : ℕ) (s : Netpoll) : Type 0 where
  pub proc : (s.waiters fd).proc ≡ p
  pub event : (s.waiters fd).waiting_evt ≡ evt
  pub alone : (other : ℕ) → (s.waiters other).proc ≡ p → other ≡ fd

-- What an attempt does to the process `p`: the waiters stay, it wakes `p` if it counts and `p` waits,
-- and then leaves its state.
abbrev Tried : (p : Ptr) (fd evt : ℕ) → Racer → Woken → Netpoll → Type 0
Tried p fd evt r l s =
    ((attempt r l s).2.waiters ≡ s.waiters)
    × (((attempt r l s).0 && (target r s == p))
        ≡ (counts p fd evt r && (s.stats p == stat_waiting)))
    × ((attempt r l s).2.stats p ≡ (
        if counts p fd evt r && (s.stats p == stat_waiting) then outcome (r ∷ []) else s.stats p))

timeout-Tried :
    (p : Ptr) (fd evt : ℕ) (weak : Bool) (proc : Ptr) (l : Woken) (s : Netpoll)
    → Tried p fd evt (by_timeout weak proc) l s
unfolding attempt on_timeout stat_cas
timeout-Tried p fd evt true proc l s = (refl, refl, refl)
timeout-Tried p fd evt false proc l s = elim (Bool-cases (proc == p)) [
  | inl here ↦
      let same : proc ≡ p = ground arith in
      rw (same, eq→== p p refl)
        (elim (Bool-cases (s.stats p == stat_waiting)) [
          | inl waits ↦ rw (waits, eq→== p p refl) (refl, refl, refl)
          | inr over ↦ rw over (refl, refl, refl)
        ])
  | inr apart ↦ elim (Bool-cases (s.stats proc == stat_waiting)) [
    | inl waits ↦ rw (waits, apart) (refl, refl, refl)
    | inr over ↦ rw (over, apart) (refl, refl, refl)
  ]
]

abbrev EventTried : Ptr → (fd evt : ℕ) → Bool → Event → Woken → Netpoll → Type 0
EventTried p fd evt weak e l s =
    p ≢ null → WaitsAt p fd evt s → Tried p fd evt (by_event weak e) l s

-- An event at the descriptor of `p`.
here-Tried :
    (p : Ptr) (fd evt : ℕ) (weak : Bool) (e : Event) (l : Woken) (s : Netpoll)
    → e.fd ≡ fd
    → EventTried p fd evt weak e l s
unfolding attempt poll_event stat_cas
here-Tried p fd evt true e l s same some_p v =
    let there : (p == null) ≡ false = ne→== p null some_p in
    let idle : ltb l.len l.len ≡ false = ground arith in
    rw (same, v.proc, v.event, there, eq→== p p refl)
      (elim (Bool-cases (bit_and (mask_of e.events) evt == 0)) [
        | inl no_event ↦ rw (no_event, idle) (refl, refl, refl)
        | inr ready ↦ rw (ready, idle) (refl, refl, refl)
      ])
here-Tried p fd evt false e l s same some_p v =
    let there : (p == null) ≡ false = ne→== p null some_p in
    let idle : ltb l.len l.len ≡ false = ground arith in
    let grown : ltb l.len (l.len + 1) ≡ true = ground arith in
    rw (same, v.proc, v.event, there, eq→== fd fd refl, eq→== p p refl)
      (elim (Bool-cases (bit_and (mask_of e.events) evt == 0)) [
        | inl no_event ↦ rw (no_event, idle) (refl, refl, refl)
        | inr ready ↦ elim (Bool-cases (s.stats p == stat_waiting)) [
          | inr over ↦ rw (ready, over, idle) (refl, refl, refl)
          | inl waits ↦ elim (Bool-cases (l.tail == null)) [
            | inl fresh ↦ rw (ready, waits, fresh, grown, eq→== p p refl) (refl, refl, refl)
            | inr more ↦ rw (ready, waits, more, grown, eq→== p p refl) (refl, refl, refl)
          ]
        ]
      ])

-- An event of another process, or of none.
there-Tried :
    (p : Ptr) (fd evt : ℕ) (weak : Bool) (e : Event) (l : Woken) (s : Netpoll)
    → e.fd ≢ fd
    → EventTried p fd evt weak e l s
unfolding attempt poll_event stat_cas
there-Tried p fd evt weak e l s other some_p v =
    let q = (s.waiters e.fd).proc in
    let apart : (q == p) ≡ false = ne→== q p (λ t. other (v.alone e.fd t)) in
    let away : (e.fd == fd) ≡ false = ne→== e.fd fd other in
    let grown : ltb l.len (l.len + 1) ≡ true = ground arith in
    let uncounted : counts p fd evt (by_event weak e) ≡ false = rw away (ground arith) in
    let keeps : (s1 : Netpoll)
        → s1.waiters ≡ s.waiters
        → s1.stats p ≡ s.stats p
        → (b : Bool)
        → (s1.waiters ≡ s.waiters) × ((b && (q == p)) ≡ false) × (s1.stats p ≡ s.stats p) =
      λ s1 w t b. (w, rw apart (ground arith), t) in
    rw uncounted (elim (Bool-cases (q == null)) [
      | inl nobody_there ↦ rw nobody_there (keeps s refl refl _)
      | inr there ↦
          elim (Bool-cases (bit_and (mask_of e.events) (s.waiters e.fd).waiting_evt == 0)) [
            | inl no_event ↦ rw (there, no_event) (keeps s refl refl _)
            | inr ready ↦ elim (Bool-cases (not weak && (s.stats q == stat_waiting))) [
              | inr over ↦ rw (there, ready, over) (keeps s refl refl _)
              | inl waits ↦ elim (Bool-cases (l.tail == null)) [
                | inl fresh ↦ rw (there, ready, waits, fresh, apart, grown) (refl, refl, refl)
                | inr more ↦ rw (there, ready, waits, more, apart, grown) (refl, refl, refl)
              ]
            ]
          ]
    ])

attempt-Tried :
    (p : Ptr) (fd evt : ℕ) (r : Racer) (l : Woken) (s : Netpoll)
    → p ≢ null
    → WaitsAt p fd evt s
    → Tried p fd evt r l s
attempt-Tried p fd evt (by_timeout weak proc) l s some_p v = timeout-Tried p fd evt weak proc l s
attempt-Tried p fd evt (by_event weak e) l s some_p v = elim (Bool-cases (e.fd == fd)) [
  | inl here ↦ here-Tried p fd evt weak e l s (ground arith) some_p v
  | inr other ↦ there-Tried p fd evt weak e l s (λ t. absurd (ground arith)) some_p v
]

-- The waiters are all that `WaitsAt` speaks of.
WaitsAt-same :
    (p : Ptr) (fd evt : ℕ) (s s1 : Netpoll)
    → s1.waiters ≡ s.waiters
    → WaitsAt p fd evt s
    → WaitsAt p fd evt s1
WaitsAt-same p fd evt s s1 e v = record {
  proc = ap (λ w. (w fd).proc) e ∙ v.proc;
  event = ap (λ w. (w fd).waiting_evt) e ∙ v.event;
  alone = λ other h. v.alone other (ap (λ w. (w other).proc) (sym e) ∙ h);
}

-- Nobody wakes it once it does not wait.
lost :
    (p : Ptr) (fd evt : ℕ) (rs : List Racer) (l : Woken) (s : Netpoll)
    → p ≢ null
    → WaitsAt p fd evt s
    → (s.stats p == stat_waiting) ≡ false
    → ((race p rs l s).0 ≡ []) × ((race p rs l s).1.stats p ≡ s.stats p)
unfolding race
lost p fd evt [] l s some_p v e = (refl, refl)
lost p fd evt (r ∷ rs) l s some_p v e =
    let t = attempt-Tried p fd evt r l s some_p v in
    let (won, l1, s1) = attempt r l s in
    let none_counts : (counts p fd evt r && (s.stats p == stat_waiting)) ≡ false =
      rw e (ground arith) in
    let same : s1.stats p ≡ s.stats p = rw none_counts at t.2 in
    let rest =
      lost p fd evt rs l1 s1 some_p (WaitsAt-same p fd evt s s1 t.0 v)
        (ap (λ x. x == stat_waiting) same ∙ e) in
    let wakes : (won && (target r s == p)) ≡ false = t.1 ∙ none_counts in
    rw wakes (rest.0, rest.1 ∙ same)

outcome-done : (r : Racer) → (outcome (r ∷ []) == stat_waiting) ≡ false
outcome-done (by_event weak evt) = refl
outcome-done (by_timeout weak proc) = refl

won :
    (p : Ptr) (fd evt : ℕ) (rs : List Racer) (l : Woken) (s : Netpoll)
    → p ≢ null
    → WaitsAt p fd evt s
    → s.stats p ≡ stat_waiting
    → ((race p rs l s).0 ≡ first p fd evt rs)
      × ((race p rs l s).1.stats p ≡ outcome (first p fd evt rs))
unfolding race
won p fd evt [] l s some_p v e = (refl, e)
won p fd evt (r ∷ rs) l s some_p v e =
    let t = attempt-Tried p fd evt r l s some_p v in
    let (woke, l1, s1) = attempt r l s in
    let next = WaitsAt-same p fd evt s s1 t.0 v in
    let waits = eq→== (s.stats p) stat_waiting e in
    elim (Bool-cases (counts p fd evt r)) [
      | inl counting ↦
          let both : (counts p fd evt r && (s.stats p == stat_waiting)) ≡ true =
            rw (counting, waits) refl in
          let state : s1.stats p ≡ outcome (r ∷ []) = rw both at t.2 in
          let over = ap (λ x. x == stat_waiting) state ∙ outcome-done r in
          let rest = lost p fd evt rs l1 s1 some_p next over in
          let wakes : (woke && (target r s == p)) ≡ true = t.1 ∙ both in
          rw (wakes, counting) (ap (λ xs. r ∷ xs) rest.0, rest.1 ∙ state)
      | inr idle ↦
          let both : (counts p fd evt r && (s.stats p == stat_waiting)) ≡ false = rw idle refl in
          let state : s1.stats p ≡ s.stats p = rw both at t.2 in
          let rest = won p fd evt rs l1 s1 some_p next (state ∙ e) in
          let wakes : (woke && (target r s == p)) ≡ false = t.1 ∙ both in rw (wakes, idle) rest
    ]

wait-WaitsAt :
    (p : Ptr) (fd timeout evt timer : ℕ) (s : Netpoll)
    → ((other : ℕ) → other ≢ fd → (s.waiters other).proc ≢ p)
    → WaitsAt p fd evt (wait p fd timeout evt timer s)
unfolding wait
wait-WaitsAt p fd timeout evt timer s nowhere = record {
  proc = rw (eq→== fd fd refl) refl;
  event = rw (eq→== fd fd refl) refl;
  alone = λ other h. elim (Bool-cases (fd == other)) [
    | inl here ↦ ground arith
    | inr apart ↦ absurd (nowhere other (λ t. absurd (ground arith)) (rw apart at h))
  ];
}

-- Events of any descriptors in polls and ends of timeouts of any processes come, in any order, after
-- the process `p`, which no other descriptor has, has begun to wait for `evt` at `fd`. The first of
-- them that counts, an event at `fd` with `evt` in its mask or the timeout of `p` whose
-- compare-exchange does not fail for no reason, wakes `p` and no other does, and csp_netpoll_wait
-- returns its reason when `p` runs again.
pub race-first :
    (p : Ptr) (fd timeout evt timer : ℕ) (rs : List Racer) (l : Woken) (s : Netpoll)
    → p ≢ null
    → ((other : ℕ) → other ≢ fd → (s.waiters other).proc ≢ p)
    → let (winners, s1) = race p rs l (wait p fd timeout evt timer s) in
      (winners ≡ first p fd evt rs) × ((resume p fd s1).0 ≡ outcome (first p fd evt rs))
unfolding wait resume
race-first p fd timeout evt timer rs l s some_p nowhere =
    won p fd evt rs l (wait p fd timeout evt timer s) some_p
      (wait-WaitsAt p fd timeout evt timer s nowhere) (rw (eq→== p p refl) refl)
