-- ===== src/Rbq/Push.antt =====
-- try_push of src/rbq.h against the queue of the items in the ring.
use shiyanhui_libcsp.Base.{
  ℕ, ◌+◌, ◌^◌, ◌<◌, ◌≤◌, ◌≡◌, refl, sym, ap, ◌∙◌, inl, inr, Bool, true, false, [], ◌∷◌, ◌++◌, arith,
  if◌then◌else◌, ltb, leb, leb→le, lt→ltb, ltb-false, Bool-cases, length,
}
use shiyanhui_libcsp.Rbq.Ptr.{Pointer, add64, mark_avail}
use shiyanhui_libcsp.Rbq.Items.{items_set}
use shiyanhui_libcsp.Rbq.Inv.{next_rsv-reserve, reserve}
use shiyanhui_libcsp.Rbq.{Rbq, readers_barr, push_at, try_push}
use shiyanhui_libcsp.Rbq.Ring.{
  IsRing, contents, length-contents, put, put-IsRing, contents-put, updated, advanced,
}

module _ {ℓ} {A : Type ℓ} where
  -- What reading the readers' barrier again may change: the barrier, up to the readers' `next`.
  pub record Refreshed (e : ℕ) (weak : Bool) (q : Rbq A) (full : ℕ → Bool) (r : ℕ × Rbq A)
      : Type ℓ where
    pub ring : IsRing e r.1
    pub items : r.1.items ≡ q.items
    pub fast : r.1.fast ≡ q.fast
    pub next : r.1.slow.next ≡ q.slow.next
    pub kept : r.1.cap ≡ q.cap
    pub fresh : r.0 ≡ r.1.slow.barr
    pub stale : full q.slow.barr ≡ false → r.0 ≡ q.slow.barr
    pub whole : full q.slow.barr ≡ true → weak ≡ false → r.0 ≡ q.slow.next

  pub readers_barr-Refreshed :
      {e : ℕ} (weak : Bool) (q : Rbq A) (full : ℕ → Bool)
      → IsRing e q
      → Refreshed e weak q full (readers_barr weak q full)
  unfolding readers_barr
  readers_barr-Refreshed {e} weak q full v = elim (Bool-cases (full q.slow.barr)) [
    | inl again ↦
        let up = updated e weak q.slow q.cap q.mask v.cap v.mask (omega arith) v.slow in
        rw again (record {
          ring = record {
            cap = v.cap;
            mask = v.mask;
            size = v.size;
            slow = up.fits;
            fast = v.fast;
            order = omega (arith, up.next);
            room = omega (arith, up.grows);
            range = v.range;
          };
          items = refl;
          fast = refl;
          next = up.next;
          kept = refl;
          fresh = up.fresh;
          stale = λ f. cc;
          whole = λ f w. up.fresh ∙ up.whole w;
        })
    | inr enough ↦ rw enough (record {
      ring = v;
      items = refl;
      fast = refl;
      next = refl;
      kept = refl;
      fresh = refl;
      stale = λ f. refl;
      whole = λ f w. cc;
    })
  ]

  -- What `try_push` may do to a ring: it answers true and appends the item, or false and changes
  -- no item. Without a failure of the weak compare-exchanges it answers true where there is room.
  pub record Pushes (e : ℕ) (weak_barr weak_next : Bool) (q : Rbq A) (x : A) (r : Bool × Rbq A)
      : Type ℓ where
    pub ring : IsRing e r.1
    pub items : contents r.1 ≡ (if r.0 then contents q ++ x ∷ [] else contents q)
    pub answer : weak_barr ≡ false → weak_next ≡ false → r.0 ≡ ltb (length (contents q)) (2 ^ e)
    pub used : r.1.fast.next ≤ q.fast.next + (if r.0 then 1 else 0)

  pub push_at-put :
      (weak : Bool) (q : Rbq A) (n : ℕ) (x : A)
      → n ≡ q.fast.next
      → (b : Bool) × (push_at weak q n x ≡ (b, if b then put q x else q))
        × (weak ≡ false → b ≡ true)
  unfolding push_at
  push_at-put weak q n x e =
      let (b, done, sure) = next_rsv-reserve weak q.fast 1 in (b, rw (e, done) (answer b), sure)
    where
      answer :
          (b : Bool)
          → ◌≡◌ {A = Bool × Rbq A}
              (if b
                then (
                  true,
                  record q {
                    items = items_set q.items q.mask q.fast.next x;
                    fast = mark_avail (if b then reserve q.fast 1 else q.fast) q.fast.next q.mask;
                  },
                )
                else (false, q))
              (b, if b then put q x else q)
      answer true = refl
      answer false = refl

  -- What a push at a ring with room leaves, whatever the compare-exchange answers.
  pub put-Pushes :
      {e : ℕ} (b : Bool) (q : Rbq A) (x : A)
      → IsRing e q
      → q.fast.next < q.slow.barr + 2 ^ e
      → q.fast.next + 1 < 2 ^ 62
      → IsRing e (if b then put q x else q)
        × (contents (if b then put q x else q) ≡ (if b then contents q ++ x ∷ [] else contents q))
        × ((if b then put q x else q).fast.next ≤ q.fast.next + (if b then 1 else 0))
  put-Pushes true q x v room r = (
    put-IsRing q x v room r,
    contents-put q x v room r,
    omega (arith, (advanced q.fast q.mask v.fast.barr_le v.range).0),
  )
  put-Pushes false q x v room r = (v, refl, omega arith)

  pub whole_view :
      {e : ℕ} {weak : Bool} {q : Rbq A} {full : ℕ → Bool} {r : ℕ × Rbq A}
      → Refreshed e weak q full r
      → full r.0 ≡ true
      → weak ≡ false
      → r.0 ≡ q.slow.next
  whole_view {q} {full} f h w = elim (Bool-cases (full q.slow.barr)) [
    | inl again ↦ f.whole again w
    | inr enough ↦ absurd (let same = f.stale enough in cc (ap full same))
  ]

  pub contents-Refreshed :
      {e : ℕ} {weak : Bool} {q : Rbq A} {full : ℕ → Bool} {r : ℕ × Rbq A}
      → Refreshed e weak q full r
      → contents r.1 ≡ contents q
  contents-Refreshed f = ground (arith, f.items, f.fast, f.next, f.kept)

  -- `try_push` on a well-formed ring, with room for one more sequence number, keeps it well-formed.
  -- With true it has appended the item to the contents, with false it has changed none; where no
  -- compare-exchange fails it answers true exactly if the contents are shorter than the capacity.
  pub try_push-Pushes :
      {e : ℕ} (weak_barr weak_next : Bool) (q : Rbq A) (x : A)
      → IsRing e q
      → q.fast.next + 1 < 2 ^ 62
      → Pushes e weak_barr weak_next q x (try_push weak_barr weak_next q x)
  unfolding try_push
  try_push-Pushes {e} weak_barr weak_next q x v r =
      let full = λ (sbarr : ℕ). leb (add64 sbarr q.cap) q.fast.next in
      let got = readers_barr-Refreshed weak_barr q full v in
      let (sbarr, q1) = readers_barr weak_barr q full in
      elim (Bool-cases (full sbarr)) [
        | inl no_room ↦ rw no_room (record {
          ring = got.ring;
          items = contents-Refreshed got;
          answer = λ w w'.
              let view = whole_view got no_room w in
              let low = leb→le (add64 sbarr q.cap) q.fast.next no_room in
              sym (ltb-false _ _ (omega (arith, length-contents q)));
          used = omega (arith, ap (λ (p : Pointer). p.next) got.fast);
        })
        | inr some_room ↦
            let same : q1.fast.next ≡ q.fast.next = ap (λ (p : Pointer). p.next) got.fast in
            let high : q.fast.next < add64 sbarr q.cap = ground arith in
            let room : q1.fast.next < q1.slow.barr + 2 ^ e =
              omega (arith, got.fresh, got.ring.slow.barr_le, got.next, got.ring.order) in
            let (b, done, sure) =
              push_at-put weak_next q1 q.fast.next x
                (ap (λ (p : Pointer). p.next) (sym got.fast)) in
            let (ring, items, used) = put-Pushes b q1 x got.ring room (omega arith) in
            rw (some_room, done)
              (record {
                ring = ring;
                items = rw (contents-Refreshed got) at items;
                used = omega (arith, used, same);
                answer = λ w w'.
                    sure w'
                    ∙ sym (
                        lt→ltb _ _
                          (omega (arith, length-contents q, got.next, got.ring.slow.barr_le)));
              })
      ]
