-- ===== src/Monitor/Poll.antt =====
-- csp_monitor_poll of src/monitor.c: every process of a poll gets to exactly one queue.
use native.Mathlib.Nat.{mod-lt}
use shiyanhui_libcsp.Base.{
  ℕ, zero, suc, ◌+◌, ◌%◌, ◌^◌, ◌≤◌, ◌<◌, ◌≡◌, ◌≢◌, refl, sym, ap, subst, ◌∙◌, inl, inr, Bool, true,
  false, Bool-cases, ◌==◌, List, [], ◌∷◌, ◌++◌, arith, update, eq→==, ne→==, empty_or, ◌>>=◌,
  append-nil, total, length, length-append, take, drop, take-append-drop, has, has-append, Distinct,
  Option, none, some,
}
use shiyanhui_libcsp.Rand.{csp_rand}
use shiyanhui_libcsp.Runq.{Ptr, null, Link, new, set}
use shiyanhui_libcsp.Runq.Chain.{Chain, IsQueue}
use shiyanhui_libcsp.Rbq.{Rbq, try_pop}
use shiyanhui_libcsp.Rbq.Ring.{IsRing, contents}
use shiyanhui_libcsp.Rbq.Pop.{Pops, try_pop-Pops}
use shiyanhui_libcsp.Monitor.{
  procs_put_list, procs_len, push_procs, Spreading, spread, Monitor, Outcome, nothing, signals,
  spreads, poll,
}
use shiyanhui_libcsp.Monitor.Parts.{procs_put_list-Parted}
use shiyanhui_libcsp.Monitor.Place.{sure, Spread, Spread-append, push_procs-finds}

-- The processes `xs` are on the global queues, and no longer on a list.
pub record Handed (e np : ℕ) (s : Spreading) (xs : List Ptr) (t : Spreading) : Type 0 where
  pub queues : Spread e np s.grunqs xs t.grunqs
  pub cleared : (p : Ptr) → has p xs ≡ true → ((t.links p).pre ≡ null) × ((t.links p).next ≡ null)
  pub same : (p : Ptr) → has p xs ≡ false → t.links p ≡ s.links p

total_nothing : (n : ℕ) → total n (λ k. 0) ≡ 0
total_nothing zero = refl
total_nothing (suc n) = omega (arith, total_nothing n)

nothing-Handed : {e np : ℕ} (s : Spreading) → ((k : ℕ) → IsRing e (s.grunqs k)) → Handed e np s [] s
nothing-Handed {np = np} s rings = record {
  queues = record {
    rings = rings;
    parts = λ k. [];
    grown = λ k. sym (append-nil (contents (s.grunqs k)));
    exact = λ p. total_nothing np;
    fits = λ k. omega arith;
    used = λ k. omega arith;
  };
  cleared = λ p i. absurd (cc i);
  same = λ p i. refl;
}

Distinct-drop : (n : ℕ) (xs : List Ptr) → Distinct xs → Distinct (drop n xs)
Distinct-drop zero xs d = d
Distinct-drop (suc n) [] d = d
Distinct-drop (suc n) (x ∷ xs) d = Distinct-drop n xs d.1

abbrev pub all_sure : ℕ → ℕ → Bool × Bool
all_sure i = sure

-- A round of the loop whose part finds a queue.
spread-again :
    (n tries np : ℕ) (start : Ptr) (s : Spreading) (p : Ptr) (ps : List Ptr) (gs : ℕ → Rbq Ptr)
    → (procs_put_list procs_len start s.links).0 ≡ p ∷ ps
    → push_procs tries sure np (p ∷ ps) ((csp_rand s.rand).0 % np) s.grunqs ≡ some gs
    → spread (suc n) tries all_sure np start s
      ≡ spread n tries all_sure np (procs_put_list procs_len start s.links).1 (record {
        links = (procs_put_list procs_len start s.links).2;
        grunqs = gs;
        rand = (csp_rand s.rand).1;
      })
unfolding spread
spread-again n tries np start s p ps gs parts found = rw (spread, parts, found) refl

Handed-append :
    {e np : ℕ} (xs ys : List Ptr) (s s1 t : Spreading)
    → ((p : Ptr) → has p xs ≡ true → ((s1.links p).pre ≡ null) × ((s1.links p).next ≡ null))
    → ((p : Ptr) → has p xs ≡ false → s1.links p ≡ s.links p)
    → Spread e np s.grunqs xs s1.grunqs
    → Handed e np s1 ys t
    → Handed e np s (xs ++ ys) t
Handed-append xs ys s s1 t cleared same one two = record {
  queues = Spread-append xs ys one two.queues;
  cleared = λ p i. elim (Bool-cases (has p ys)) [
    | inl late ↦ two.cleared p late
    | inr early ↦
        let out : has p xs ≡ true = ground (arith, has-append p xs ys) in
        let kept = two.same p early in
        let (no_pre, no_next) = cleared p out in
        (ap (λ (l : Link). l.pre) kept ∙ no_pre, ap (λ (l : Link). l.next) kept ∙ no_next)
  ];
  same = λ p i.
      let first : has p xs ≡ false = ground (arith, has-append p xs ys) in
      let second : has p ys ≡ false = ground (arith, has-append p xs ys) in
      two.same p second ∙ same p first;
}

spread-Handed :
    {e : ℕ} (fuel np k : ℕ) (pre start : Ptr) (s : Spreading) (xs : List Ptr)
    → Chain s.links pre start xs
    → Distinct xs
    → ((j : ℕ) → IsRing e (s.grunqs j))
    → ((j : ℕ) → (s.grunqs j).fast.next + length xs < 2 ^ 62)
    → k < np
    → length (contents (s.grunqs k)) + length xs ≤ 2 ^ e
    → length xs < fuel
    → (t : Spreading) × (spread fuel np all_sure np start s ≡ some t) × Handed e np s xs t
unfolding spread
spread-Handed zero np k pre start s xs c d rings range here room enough = absurd (omega arith)
spread-Handed (suc fuel) np k pre start s [] c d rings range here room enough =
    let r = procs_put_list-Parted procs_len pre start s.links [] c d in
    (s, rw (spread, r.procs) refl, nothing-Handed s rings)
spread-Handed {e} (suc fuel) np k pre start s (x ∷ xs) c d rings range here room enough =
    let r = procs_put_list-Parted procs_len pre start s.links (x ∷ xs) c d in
    let part = take procs_len (x ∷ xs) in
    let left = drop procs_len (x ∷ xs) in
    let parts : length part + length left ≡ length (x ∷ xs) =
      omega (arith, length-append part left, ap length (take-append-drop procs_len (x ∷ xs))) in
    let some_part : 0 < length part = omega arith in
    let (gs, found, one) =
      push_procs-finds np ((csp_rand s.rand).0 % np) k s.grunqs part rings
        (λ j. omega (arith, range j)) (omega arith) (mod-lt _ (omega arith)) here in
    let s1 : Spreading = record {
      links = (procs_put_list procs_len start s.links).2;
      grunqs = gs;
      rand = (csp_rand s.rand).1;
    } in
    let grown = ap length (one.grown k) ∙ length-append (contents (s.grunqs k)) (one.parts k) in
    let (t, done, two) =
      spread-Handed fuel np k r.pre (procs_put_list procs_len start s.links).1 s1 left r.rest
        (Distinct-drop procs_len (x ∷ xs) d) one.rings (λ j. omega (arith, range j, one.used j))
        here (omega (arith, grown, one.fits k)) (omega arith) in
    (
      t,
      spread-again fuel np np start s x (take 15 xs) gs r.procs found ∙ done,
      subst (λ l. Handed e np s l t) (take-append-drop procs_len (x ∷ xs))
          (Handed-append part left s s1 t r.cleared r.same one two),
    )

empty_contents : (q : Rbq ℕ) → length (contents q) ≡ 0 → contents q ≡ []
empty_contents q h = elim (empty_or (contents q)) [
  | inl none_in ↦ none_in
  | inr some_in ↦ absurd (omega (arith, h, some_in))
]

-- What a round of `csp_monitor_poll` with the processes `xs` does, by what it comes to: nothing if
-- there are none; the queue of the first starving core, where one starves; the global queues else.
abbrev pub Handled : (e np : ℕ) → Monitor → List Ptr → Outcome × Monitor → Type 0
Handled e np s xs (nothing, t) = (xs ≡ []) × (t ≡ s)
Handled e np s xs (signals c, t) =
    (contents s.starving_procs ≡ c ∷ contents t.starving_procs)
    × IsQueue t.spreading.links (t.lrunqs c) xs
    × ((d : ℕ) → c ≢ d → t.lrunqs d ≡ s.lrunqs d)
    × (t.spreading ≡ s.spreading)
Handled e np s xs (spreads woken, t) =
    (contents s.starving_procs ≡ [])
    × Handed e np s.spreading xs t.spreading
    × (t.lrunqs ≡ s.lrunqs)

-- Where no compare-exchange fails and the global queue of some processor `k` has room for all the
-- processes `xs` of a poll, given as a well-formed run queue, `csp_monitor_poll` ends: without
-- processes it changes nothing; if a core starves, the first such core is signalled and has exactly
-- them in its local queue; else each of them gets to exactly one place behind the others of a global
-- queue, and its links are cleared.
pub poll-Handled :
    {e f : ℕ} (np k n : ℕ) (start end : Ptr) (xs : List Ptr) (s : Monitor)
    → IsQueue s.spreading.links (set new n start end) xs
    → ((j : ℕ) → IsRing e (s.spreading.grunqs j))
    → ((j : ℕ) → (s.spreading.grunqs j).fast.next + length xs < 2 ^ 62)
    → IsRing f s.starving_procs
    → k < np
    → length (contents (s.spreading.grunqs k)) + length xs ≤ 2 ^ e
    → (r : Outcome × Monitor) × (poll
          (length xs + 1)
          np
          (false, false)
          (false, false)
          all_sure
          np
          n
          start
          end
          s
        ≡ some r)
      × Handled e np s xs r
unfolding poll
poll-Handled {e} {f} np k n start end [] s v rings range starving here room =
    ((nothing, s), rw v.counted refl, (refl, refl))
poll-Handled {e} {f} np k n start end (x ∷ xs) s v rings range starving here room =
    let p = try_pop-Pops false false s.starving_procs starving in
    let some_found : (n == 0) ≡ false = ne→== n 0 (λ t. absurd (omega (arith, v.counted, t))) in
    let (t, done, handed) =
      spread-Handed (length (x ∷ xs) + 1) np k null start s.spreading (x ∷ xs) v.chain v.distinct
        rings range here room (omega arith) in
    let (core, q) = try_pop false false s.starving_procs in
    rw some_found (given core q p t done handed)
  where
    given :
        (core : Option ℕ) (q : Rbq ℕ)
        → Pops f false false s.starving_procs (core, q)
        → (t : Spreading) → spread (length (x ∷ xs) + 1) np all_sure np start s.spreading ≡ some t
        → Handed e np s.spreading (x ∷ xs) t
        → let s1 = record s { starving_procs = q } in
          (r : Outcome × Monitor) × ((elim core [
            | some c ↦
                some (
                  signals c,
                  record s1 { lrunqs = update s.lrunqs c (set (s.lrunqs c) n start end) },
                )
            | none ↦ spread (length (x ∷ xs) + 1) np all_sure np start s.spreading >>= (λ t.
                let (woken, threads) = try_pop false false s.starving_threads in
                some (spreads woken, record s1 { spreading = t; starving_threads = threads }))
          ])
            ≡ some r)
          × Handled e np s (x ∷ xs) r
    given none q p t done handed =
        let (woken, threads) = try_pop false false s.starving_threads in
        (
          (
            spreads woken,
            record s { starving_procs = q; spreading = t; starving_threads = threads },
          ),
          rw done refl,
          (empty_contents s.starving_procs (p.answer refl refl refl), handed, refl),
        )
    given (some c) q p t done handed = (
      (
        signals c,
        record s { starving_procs = q; lrunqs = update s.lrunqs c (set (s.lrunqs c) n start end) },
      ),
      refl,
      (
        p.items,
        rw (eq→== c c refl) (record {
          chain = v.chain;
          tail = v.tail;
          distinct = v.distinct;
          counted = v.counted;
          small = v.small;
        }),
        λ d apart. rw (ne→== c d apart) refl,
        refl,
      ),
    )
