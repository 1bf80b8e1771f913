-- ===== src/Rbq/Popm.antt =====
-- try_popm of src/rbq.h against pops of one item after the other.
use shiyanhui_libcsp.Base.{
  ℕ, zero, suc, ◌+◌, ◌-◌, ◌≤◌, ◌<◌, ◌≡◌, refl, sym, ap, ap₂, ◌∙◌, inl, inr, Bool, true, false,
  Option, none, some, List, [], ◌∷◌, ◌++◌, arith, if◌then◌else◌, ltb, lt→ltb, leb, leb→le,
  Bool-cases, length,
}
use shiyanhui_libcsp.Rbq.Ptr.{Pointer, mark_avail, markm_avail}
use shiyanhui_libcsp.Rbq.Items.{items_get, items_getm}
use shiyanhui_libcsp.Rbq.Inv.{next_rsv-reserve, reserve}
use shiyanhui_libcsp.Rbq.{Rbq, writers_barr, popm_at, pop_many, try_pop, try_popm}
use shiyanhui_libcsp.Rbq.Ring.{IsRing, contents, length-contents, advanced}
use shiyanhui_libcsp.Rbq.Batch.{advances, markm-advances, get_each, items_getm-get_each}
use shiyanhui_libcsp.Rbq.Pop.{
  oldest, drop_oldest, drop_oldest-IsRing, contents-drop_oldest, Pops, writers_barr-Refreshed,
  contents-Refreshed, try_pop-Pops,
}

module _ {ℓ} {A : Type ℓ} where
  length-get_each : (items : ℕ → A) (m s n : ℕ) → length (get_each items m s n) ≡ n
  length-get_each items m s zero = refl
  length-get_each items m s (suc n) = ap suc (length-get_each items m (s + 1) n)

  -- Items taken one after the other.
  abbrev drops : Rbq A → ℕ → Rbq A
  drops q n = record q { slow = advances q.slow q.mask n }

  abbrev firsts : Rbq A → ℕ → List A
  firsts q n = get_each q.items q.mask q.slow.next n

  drops-Drops :
      {e : ℕ} (q : Rbq A) (n : ℕ)
      → IsRing e q
      → q.slow.next + n ≤ q.fast.barr
      → IsRing e (drops q n) × (contents q ≡ firsts q n ++ contents (drops q n))
  drops-Drops q zero v some_left = (v, refl)
  drops-Drops {e} q (suc n) v some_left =
      let lt : q.slow.next < q.fast.barr = omega arith in
      let (next, b) = advanced q.slow q.mask v.slow.barr_le (omega (arith, v.fast.barr_le)) in
      let (ring, rest) = drops-Drops (drop_oldest q) n (drop_oldest-IsRing q v lt) (omega arith) in
      (
        ring,
        contents-drop_oldest q v lt
            ∙ ap (λ l. oldest q ∷ l)
                (rest
                  ∙ ap (λ s. get_each q.items q.mask s n ++ contents (drops (drop_oldest q) n))
                      next),
      )

  -- What `try_popm` may do to a ring: it hands out at most `n` of the oldest items in order. Without
  -- a failure of the weak compare-exchanges it hands out none only from an empty ring.
  pub record PopsMany (e : ℕ) (weak_barr weak_next : Bool) (q : Rbq A) (n : ℕ) (r : List A × Rbq A)
      : Type ℓ where
    pub ring : IsRing e r.1
    pub items : contents q ≡ r.0 ++ contents r.1
    pub few : length r.0 ≤ n
    pub answer : weak_barr ≡ false → weak_next ≡ false → 0 < n → r.0 ≡ [] → length (contents q) ≡ 0

  -- A reservation that holds gives the `len` oldest items.
  popm_at-drops :
      {e : ℕ} (weak : Bool) (q : Rbq A) (s len : ℕ)
      → IsRing e q
      → s ≡ q.slow.next
      → 0 < len
      → q.slow.next + len ≤ q.fast.barr
      → (b : Bool) × (popm_at weak q s len ≡ (if b then (firsts q len, drops q len) else ([], q)))
        × (weak ≡ false → b ≡ true)
  unfolding popm_at
  popm_at-drops weak q s zero v at pos left = absurd (omega arith)
  popm_at-drops weak q s (suc zero) v at pos left =
      let (b, done, sure) = next_rsv-reserve weak q.slow 1 in (b, rw (at, done) (answer b), sure)
    where
      answer :
          (b : Bool)
          → ◌≡◌ {A = List A × Rbq A}
              (if b
                then (
                  items_get q.items q.mask q.slow.next ∷ [],
                  record q {
                    slow = mark_avail (if b then reserve q.slow 1 else q.slow) q.slow.next q.mask;
                  },
                )
                else ([], q))
              (if b then (firsts q 1, drops q 1) else ([], q))
      answer true = refl
      answer false = refl
  popm_at-drops {e} weak q s (suc (suc n)) v at pos left =
      let len = suc (suc n) in
      let (b, done, sure) = next_rsv-reserve weak q.slow len in
      (b, rw (at, done, lt→ltb 1 len (omega arith)) (answer b), sure)
    where
      taken : items_getm q.items q.cap q.mask q.slow.next (suc (suc n)) ≡ firsts q (suc (suc n))
      taken =
          ap₂ (λ c m. items_getm q.items c m q.slow.next (suc (suc n))) v.cap v.mask
          ∙ items_getm-get_each e q.items q.slow.next (suc (suc n))
              (omega (arith, v.room, v.slow.barr_le, v.fast.barr_le))
          ∙ ap (λ m. get_each q.items m q.slow.next (suc (suc n))) (sym v.mask)

      answer :
          (b : Bool)
          → ◌≡◌ {A = List A × Rbq A}
              (if b
                then (
                  items_getm q.items q.cap q.mask q.slow.next (suc (suc n)),
                  record q {
                    slow =
                        markm_avail
                          (if b then reserve q.slow (suc (suc n)) else q.slow)
                          q.slow.next
                          (suc (suc n))
                          q.mask;
                  },
                )
                else ([], q))
              (if b then (firsts q (suc (suc n)), drops q (suc (suc n))) else ([], q))
      answer true =
          ap₂ (λ l p. (l, record q { slow = p })) taken
            (markm-advances q.slow q.mask (suc n) (omega (arith, v.range, v.fast.barr_le)))
      answer false = refl

  -- What a batch pop at a ring with items leaves, whatever the compare-exchange answers.
  drops-PopsMany :
      {e : ℕ} (wb wn b : Bool) (q q1 : Rbq A) (n len : ℕ)
      → IsRing e q1
      → contents q1 ≡ contents q
      → q1.slow.next + len ≤ q1.fast.barr
      → 0 < len
      → len ≤ n
      → (wn ≡ false → b ≡ true)
      → PopsMany e wb wn q n (if b then (firsts q1 len, drops q1 len) else ([], q1))
  drops-PopsMany wb wn true q q1 n len v same left pos few sure =
      let (ring, items) = drops-Drops q1 len v left in
      let count : length (firsts q1 len) ≡ len =
        length-get_each q1.items q1.mask q1.slow.next len in
      record {
        ring = ring;
        items = sym same ∙ items;
        few = omega arith;
        answer = λ w w' p none_got. absurd (omega (arith, sym count ∙ ap length none_got));
      }
  drops-PopsMany wb wn false q q1 n len v same left pos few sure = record {
    ring = v;
    items = sym same;
    few = omega arith;
    answer = λ w w' p none_got. absurd (cc (sure w'));
  }

  pub pop_many-PopsMany :
      {e : ℕ} (weak_barr weak_next : Bool) (q : Rbq A) (n : ℕ)
      → IsRing e q
      → 0 < n
      → PopsMany e weak_barr weak_next q n (pop_many weak_barr weak_next q n)
  unfolding pop_many
  pop_many-PopsMany {e} weak_barr weak_next q n v pos =
      let got = writers_barr-Refreshed weak_barr q v in
      let (fbarr, q1) = writers_barr weak_barr q in
      elim (Bool-cases (leb fbarr q.slow.next)) [
        | inl nothing ↦ rw nothing (record {
          ring = got.ring;
          items = sym (contents-Refreshed got);
          few = omega arith;
          answer = λ w w' p none_got.
              let low = leb→le fbarr q.slow.next nothing in
              omega (arith, length-contents q, got.whole nothing w);
        })
        | inr something ↦
            let high : q.slow.next < fbarr = ground arith in
            let len = if ltb n (fbarr - q.slow.next) then n else fbarr - q.slow.next in
            let small : len ≤ n = ground arith in
            let least : 0 < len = ground arith in
            let inside : len ≤ fbarr - q.slow.next = ground arith in
            let same : q.slow.next ≡ q1.slow.next = ap (λ (p : Pointer). p.next) (sym got.slow) in
            let left : q1.slow.next + len ≤ q1.fast.barr = omega (arith, got.fresh) in
            let (b, done, sure) =
              popm_at-drops weak_next q1 q.slow.next len got.ring same least left in
            rw (something, done)
              (drops-PopsMany weak_barr weak_next b q q1 n len got.ring (contents-Refreshed got)
                left least small sure)
      ]

  -- `try_popm` of at most `n` items on a well-formed ring keeps it well-formed. The items that it gives
  -- are the first of the contents, in order, at most `n`, and the ring keeps the others; where no
  -- compare-exchange fails and `n` is not 0 it gives none only from an empty ring.
  pub try_popm-PopsMany :
      {e : ℕ} (weak_barr weak_next : Bool) (q : Rbq A) (n : ℕ)
      → IsRing e q
      → PopsMany e weak_barr weak_next q n (try_popm weak_barr weak_next q n)
  unfolding try_popm
  try_popm-PopsMany weak_barr weak_next q zero v = record {
    ring = v;
    items = refl;
    few = omega arith;
    answer = λ w w' p none_got. absurd (omega arith);
  }
  try_popm-PopsMany {e} weak_barr weak_next q (suc zero) v =
      let p = try_pop-Pops weak_barr weak_next q v in
      let (item, q1) = try_pop weak_barr weak_next q in one item q1 p
    where
      one :
          (item : Option A) (q1 : Rbq A)
          → Pops e weak_barr weak_next q (item, q1)
          → PopsMany e weak_barr weak_next q 1 (elim item [ none ↦ [] | some x ↦ x ∷ [] ], q1)
      one none q1 p = record {
        ring = p.ring;
        items = p.items;
        few = omega arith;
        answer = λ w w' pos none_got. p.answer w w' refl;
      }
      one (some x) q1 p = record {
        ring = p.ring;
        items = p.items;
        few = omega arith;
        answer = λ w w' pos none_got. absurd (omega (arith, ap length none_got));
      }
  try_popm-PopsMany weak_barr weak_next q (suc (suc n)) v =
      pop_many-PopsMany weak_barr weak_next q (suc (suc n)) v (omega arith)
