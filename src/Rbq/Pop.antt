-- ===== src/Rbq/Pop.antt =====
-- try_pop of src/rbq.h against the queue of the items in the ring.
use shiyanhui_libcsp.Base.{
  ℕ, suc, ◌+◌, ◌-◌, ◌%◌, ◌^◌, ◌<◌, ◌≡◌, refl, sym, ap, ap₂, subst, ◌∙◌, inl, inr, Bool, true, false,
  ◌∷◌, Option, none, some, arith, if◌then◌else◌, leb, leb→le, Bool-cases, length,
}
use shiyanhui_libcsp.Rbq.Ptr.{Pointer, mark_avail}
use shiyanhui_libcsp.Rbq.Items.{items_get}
use shiyanhui_libcsp.Rbq.Inv.{IsPtr, advance, advance-IsPtr, next_rsv-reserve, reserve}
use shiyanhui_libcsp.Rbq.Ring.{IsRing, window, contents, length-contents, advanced, updated, slot}
use shiyanhui_libcsp.Rbq.{Rbq, writers_barr, pop_at, try_pop}

module _ {ℓ} {A : Type ℓ} where
  -- The oldest item and the ring after it is taken.
  abbrev pub oldest : Rbq A → A
  oldest q = items_get q.items q.mask q.slow.next

  abbrev pub drop_oldest : Rbq A → Rbq A
  drop_oldest q = record q { slow = advance q.slow q.mask }

  window-cons :
      (items : ℕ → A) (k s n m : ℕ)
      → n ≡ suc m
      → window items k s n ≡ items (s % k) ∷ window items k (s + 1) m
  unfolding window
  window-cons items k s n m e = rw e

  pub drop_oldest-IsRing :
      {e : ℕ} (q : Rbq A) → IsRing e q → q.slow.next < q.fast.barr → IsRing e (drop_oldest q)
  drop_oldest-IsRing {e} q v some_left =
      let (n, b) = advanced q.slow q.mask v.slow.barr_le (omega (arith, v.fast.barr_le)) in
      let kept = advance-IsPtr e q.slow (omega arith) (omega (arith, v.fast.barr_le)) v.slow in
      record {
        cap = v.cap;
        mask = v.mask;
        size = v.size;
        slow = subst (λ m. IsPtr (2 ^ e) (advance q.slow m)) (sym v.mask) kept;
        fast = v.fast;
        order = omega arith;
        room = omega arith;
        range = v.range;
      }

  pub contents-drop_oldest :
      {e : ℕ} (q : Rbq A)
      → IsRing e q
      → q.slow.next < q.fast.barr
      → contents q ≡ oldest q ∷ contents (drop_oldest q)
  unfolding items_get
  contents-drop_oldest {e} q v some_left =
      let (n, b) = advanced q.slow q.mask v.slow.barr_le (omega (arith, v.fast.barr_le)) in
      let left : q.fast.next - q.slow.next ≡ suc (q.fast.next - (q.slow.next + 1)) =
        omega (arith, v.fast.barr_le) in
      window-cons q.items q.cap q.slow.next _ _ left
      ∙ ap₂ ◌∷◌ (ap q.items (sym (slot q q.slow.next v))) (rw n)

  -- What reading the writers' barrier again may change: the barrier, up to the writers' `next`.
  pub record Refreshed (e : ℕ) (weak : Bool) (q : Rbq A) (r : ℕ × Rbq A) : Type ℓ where
    pub ring : IsRing e r.1
    pub items : r.1.items ≡ q.items
    pub slow : r.1.slow ≡ q.slow
    pub next : r.1.fast.next ≡ q.fast.next
    pub kept : r.1.cap ≡ q.cap
    pub fresh : r.0 ≡ r.1.fast.barr
    pub whole : leb r.0 q.slow.next ≡ true → weak ≡ false → r.0 ≡ q.fast.next

  pub writers_barr-Refreshed :
      {e : ℕ} (weak : Bool) (q : Rbq A) → IsRing e q → Refreshed e weak q (writers_barr weak q)
  unfolding writers_barr
  writers_barr-Refreshed {e} weak q v = elim (Bool-cases (leb q.fast.barr q.slow.next)) [
    | inl again ↦
        let up = updated e weak q.fast q.cap q.mask v.cap v.mask (omega arith) v.fast in
        rw again (record {
          ring = record {
            cap = v.cap;
            mask = v.mask;
            size = v.size;
            slow = v.slow;
            fast = up.fits;
            order = omega (arith, up.grows);
            room = omega (arith, up.next);
            range = omega (arith, up.next);
          };
          items = refl;
          slow = refl;
          next = up.next;
          kept = refl;
          fresh = up.fresh;
          whole = λ f w. up.fresh ∙ up.whole w;
        })
    | inr enough ↦ rw enough (record {
      ring = v;
      items = refl;
      slow = refl;
      next = refl;
      kept = refl;
      fresh = refl;
      whole = λ f w. cc;
    })
  ]

  -- What `try_pop` may do to a ring: it hands out the oldest item, or nothing and changes no item.
  -- Without a failure of the weak compare-exchanges it hands out nothing only from an empty ring.
  pub record Pops (e : ℕ) (weak_barr weak_next : Bool) (q : Rbq A) (r : Option A × Rbq A)
      : Type ℓ where
    pub ring : IsRing e r.1
    pub items : contents q ≡ elim r.0 [ none ↦ contents r.1 | some x ↦ x ∷ contents r.1 ]
    pub answer : weak_barr ≡ false → weak_next ≡ false → r.0 ≡ none → length (contents q) ≡ 0

  pop_at-drop :
      (weak : Bool) (q : Rbq A) (n : ℕ)
      → n ≡ q.slow.next
      → (b : Bool) × (pop_at weak q n ≡ (if b then (some (oldest q), drop_oldest q) else (none, q)))
        × (weak ≡ false → b ≡ true)
  unfolding pop_at
  pop_at-drop weak q n e =
      let (b, done, sure) = next_rsv-reserve weak q.slow 1 in (b, rw (e, done) (answer b), sure)
    where
      answer :
          (b : Bool)
          → ◌≡◌ {A = Option A × Rbq A}
              (if b
                then (
                  some (items_get q.items q.mask q.slow.next),
                  record q {
                    slow = mark_avail (if b then reserve q.slow 1 else q.slow) q.slow.next q.mask;
                  },
                )
                else (none, q))
              (if b then (some (oldest q), drop_oldest q) else (none, q))
      answer true = refl
      answer false = refl

  pub contents-Refreshed :
      {e : ℕ} {weak : Bool} {q : Rbq A} {r : ℕ × Rbq A}
      → Refreshed e weak q r
      → contents r.1 ≡ contents q
  contents-Refreshed f = ground (arith, f.items, f.slow, f.next, f.kept)

  -- A pop at a ring with items, whatever the compare-exchange answers.
  drop-Pops :
      {e : ℕ} (wb wn b : Bool) (q q1 : Rbq A)
      → IsRing e q1
      → contents q1 ≡ contents q
      → q1.slow.next < q1.fast.barr
      → (wn ≡ false → b ≡ true)
      → Pops e wb wn q (if b then (some (oldest q1), drop_oldest q1) else (none, q1))
  drop-Pops wb wn true q q1 v same some_left sure = record {
    ring = drop_oldest-IsRing q1 v some_left;
    items = sym same ∙ contents-drop_oldest q1 v some_left;
    answer = λ w w' n. cc;
  }
  drop-Pops wb wn false q q1 v same some_left sure = record {
    ring = v;
    items = sym same;
    answer = λ w w' n. absurd (cc (sure w'));
  }

  -- `try_pop` on a well-formed ring keeps it well-formed. An item that it gives was the first of the
  -- contents, which loses it; without an item the contents stay, and where no compare-exchange fails
  -- they are empty then.
  pub try_pop-Pops :
      {e : ℕ} (weak_barr weak_next : Bool) (q : Rbq A)
      → IsRing e q
      → Pops e weak_barr weak_next q (try_pop weak_barr weak_next q)
  unfolding try_pop
  try_pop-Pops {e} weak_barr weak_next q v =
      let got = writers_barr-Refreshed weak_barr q v in
      let (fbarr, q1) = writers_barr weak_barr q in
      elim (Bool-cases (leb fbarr q.slow.next)) [
        | inl nothing ↦ rw nothing (record {
          ring = got.ring;
          items = sym (contents-Refreshed got);
          answer = λ w w' n.
              let view = got.whole nothing w in
              let low = leb→le fbarr q.slow.next nothing in omega (arith, length-contents q);
        })
        | inr something ↦
            let same : q1.slow.next ≡ q.slow.next = ap (λ (p : Pointer). p.next) got.slow in
            let high : q.slow.next < fbarr = ground arith in
            let some_left : q1.slow.next < q1.fast.barr = omega (arith, got.fresh) in
            let (b, done, sure) = pop_at-drop weak_next q1 q.slow.next (sym same) in
            rw (something, done)
              (drop-Pops weak_barr weak_next b q q1 got.ring (contents-Refreshed got) some_left
                sure)
      ]
