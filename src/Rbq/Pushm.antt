-- ===== src/Rbq/Pushm.antt =====
-- try_pushm of src/rbq.h against pushes of one item after the other.
use shiyanhui_libcsp.Base.{
  ℕ, ◌+◌, ◌^◌, ◌≤◌, ◌<◌, ◌≡◌, refl, sym, ap, ◌∙◌, inl, inr, Bool, true, false, List, [], ◌∷◌, ◌++◌,
  arith, if◌then◌else◌, ltb, leb, le→leb, leb-false, ltb→lt, Bool-cases, length, append-nil,
  append_assoc, length-append, subst,
}
use shiyanhui_libcsp.Rbq.Ptr.{Pointer, add64, markm_avail}
use shiyanhui_libcsp.Rbq.Items.{items_set, items_setm}
use shiyanhui_libcsp.Rbq.Inv.{next_rsv-reserve, reserve, advance}
use shiyanhui_libcsp.Rbq.{Rbq, readers_barr, pushm_at, push_many, try_push, try_pushm}
use shiyanhui_libcsp.Rbq.Ring.{
  IsRing, contents, length-contents, put, put-IsRing, contents-put, advanced,
}
use shiyanhui_libcsp.Rbq.Batch.{
  advances, advance-fields, markm-advances, set_each, items_setm-set_each,
}
use shiyanhui_libcsp.Rbq.Push.{
  readers_barr-Refreshed, whole_view, contents-Refreshed, try_push-Pushes,
}

ltb-leb : (a b : ℕ) → ltb a b ≡ leb (a + 1) b
ltb-leb a b = ground arith

module _ {ℓ} {A : Type ℓ} where
  -- Items put one after the other.
  abbrev pub puts : Rbq A → List A → Rbq A
  puts q [] = q
  puts q (x ∷ xs) = puts (put q x) xs

  puts-fields :
      (q : Rbq A) (xs : List A)
      → q.fast.next + length xs < 2 ^ 64
      → puts q xs ≡ record q {
        items = set_each q.items q.mask q.fast.next xs;
        fast = advances q.fast q.mask (length xs);
      }
  puts-fields q [] fits = refl
  puts-fields q (x ∷ xs) fits =
      let next : (advance q.fast q.mask).next ≡ q.fast.next + 1 =
        omega (arith, (advance-fields q.fast q.mask).1) in
      puts-fields (put q x) xs (omega arith)
      ∙ ap
          (λ s. record q {
            items = set_each (items_set q.items q.mask q.fast.next x) q.mask s xs;
            fast = advances (advance q.fast q.mask) q.mask (length xs);
          })
          next

  -- The ring after a batch.
  abbrev pub batch : Rbq A → List A → Rbq A
  batch q xs = record q {
    items = items_setm q.items q.cap q.mask q.fast.next xs;
    fast = markm_avail (reserve q.fast (length xs)) q.fast.next (length xs) q.mask;
  }

  -- A batch is its items put one after the other.
  batch-puts :
      {e : ℕ} (q : Rbq A) (x : A) (xs : List A)
      → IsRing e q
      → length (x ∷ xs) ≤ 2 ^ e
      → q.fast.next + length (x ∷ xs) < 2 ^ 62
      → batch q (x ∷ xs) ≡ puts q (x ∷ xs)
  batch-puts {e} q x xs v fits r =
      let items : items_setm q.items q.cap q.mask q.fast.next (x ∷ xs)
          ≡ set_each q.items q.mask q.fast.next (x ∷ xs) =
        rw (v.cap, v.mask) (items_setm-set_each e q.items q.fast.next (x ∷ xs) fits) in
      let fast = markm-advances q.fast q.mask (length xs) (omega arith) in
      ap (λ i. record (batch q (x ∷ xs)) { items = i }) items
      ∙ ap (λ p. record q { items = set_each q.items q.mask q.fast.next (x ∷ xs); fast = p }) fast
      ∙ sym (puts-fields q (x ∷ xs) (omega arith))

  -- Putting many items with room for all.
  puts-Puts :
      {e : ℕ} (q : Rbq A) (xs : List A)
      → IsRing e q
      → q.fast.next + length xs ≤ q.slow.barr + 2 ^ e
      → q.fast.next + length xs < 2 ^ 62
      → IsRing e (puts q xs)
        × (contents (puts q xs) ≡ contents q ++ xs)
        × ((puts q xs).fast.next ≡ q.fast.next + length xs)
  puts-Puts q [] v room r = (v, sym (append-nil (contents q)), omega arith)
  puts-Puts {e} q (x ∷ xs) v room r =
      let (next, b) = advanced q.fast q.mask v.fast.barr_le v.range in
      let (ring, items, used) =
        puts-Puts (put q x) xs (put-IsRing q x v (omega arith) (omega arith)) (omega arith)
          (omega arith) in
      (
        ring,
        items
            ∙ ap (λ l. l ++ xs) (contents-put q x v (omega arith) (omega arith))
            ∙ append_assoc (contents q) (x ∷ []) xs,
        omega (arith, used, next),
      )

  -- What `try_pushm` may do to a ring: it answers true and appends all items in order, or false and
  -- changes no item. Without a failure of the weak compare-exchanges it answers true where all fit.
  pub record PushesAll (e : ℕ) (weak_barr weak_next : Bool) (q : Rbq A) (xs : List A)
      (r : Bool × Rbq A) : Type ℓ where
    pub ring : IsRing e r.1
    pub items : contents r.1 ≡ (if r.0 then contents q ++ xs else contents q)
    pub answer :
        weak_barr ≡ false → weak_next ≡ false → r.0 ≡ leb (length (contents q) + length xs) (2 ^ e)
    pub used : r.1.fast.next ≤ q.fast.next + (if r.0 then length xs else 0)

  pub pushm_at-batch :
      (weak : Bool) (q : Rbq A) (n : ℕ) (xs : List A)
      → n ≡ q.fast.next
      → (b : Bool) × (pushm_at weak q n xs ≡ (b, if b then batch q xs else q))
        × (weak ≡ false → b ≡ true)
  unfolding pushm_at
  pushm_at-batch weak q n xs e =
      let (b, done, sure) = next_rsv-reserve weak q.fast (length xs) in
      (b, rw (e, done) (answer b), sure)
    where
      answer :
          (b : Bool)
          → ◌≡◌ {A = Bool × Rbq A}
              (if b
                then (
                  true,
                  record q {
                    items = items_setm q.items q.cap q.mask q.fast.next xs;
                    fast =
                        markm_avail
                          (if b then reserve q.fast (length xs) else q.fast)
                          q.fast.next
                          (length xs)
                          q.mask;
                  },
                )
                else (false, q))
              (b, if b then batch q xs else q)
      answer true = refl
      answer false = refl

  -- What a batch at a ring with room leaves, whatever the compare-exchange answers.
  pub batch-Puts :
      {e : ℕ} (b : Bool) (q : Rbq A) (x : A) (xs : List A)
      → IsRing e q
      → q.fast.next + length (x ∷ xs) ≤ q.slow.barr + 2 ^ e
      → q.fast.next + length (x ∷ xs) < 2 ^ 62
      → let q' = if b then batch q (x ∷ xs) else q in
        IsRing e q'
        × (contents q' ≡ (if b then contents q ++ x ∷ xs else contents q))
        × (q'.fast.next ≤ q.fast.next + (if b then length (x ∷ xs) else 0))
  batch-Puts {e} true q x xs v room r =
      subst
        (λ t.
          IsRing e t
          × (contents t ≡ contents q ++ x ∷ xs)
          × (t.fast.next ≤ q.fast.next + length (x ∷ xs)))
        (sym (batch-puts q x xs v (omega (arith, v.slow.barr_le, v.fast.barr_le, v.order)) r))
        (let (ring, items, used) = puts-Puts q (x ∷ xs) v room r in
          (ring, items, omega (arith, used)))
  batch-Puts false q x xs v room r = (v, refl, omega arith)

  push_many-PushesAll :
      {e : ℕ} (weak_barr weak_next : Bool) (q : Rbq A) (x : A) (xs : List A)
      → IsRing e q
      → q.fast.next + length (x ∷ xs) < 2 ^ 62
      → PushesAll e weak_barr weak_next q (x ∷ xs) (push_many weak_barr weak_next q (x ∷ xs))
  unfolding push_many
  push_many-PushesAll {e} weak_barr weak_next q x xs v r =
      let n = length (x ∷ xs) in
      let full = λ (sbarr : ℕ). ltb (add64 sbarr q.cap) (add64 q.fast.next n) in
      let got = readers_barr-Refreshed weak_barr q full v in
      let (sbarr, q1) = readers_barr weak_barr q full in
      elim (Bool-cases (full sbarr)) [
        | inl no_room ↦ rw no_room (record {
          ring = got.ring;
          items = contents-Refreshed got;
          used = omega (arith, ap (λ (p : Pointer). p.next) got.fast);
          answer = λ w w'.
              let view = whole_view got no_room w in
              let low = ltb→lt (add64 sbarr q.cap) (add64 q.fast.next n) no_room in
              sym (leb-false _ _ (omega (arith, length-contents q)));
        })
        | inr some_room ↦
            let same : q1.fast.next ≡ q.fast.next = ap (λ (p : Pointer). p.next) got.fast in
            let high : add64 q.fast.next n ≤ add64 sbarr q.cap = ground arith in
            let room : q1.fast.next + n ≤ q1.slow.barr + 2 ^ e =
              omega (arith, got.fresh, got.ring.slow.barr_le, got.next, got.ring.order) in
            let (b, done, sure) =
              pushm_at-batch weak_next q1 q.fast.next (x ∷ xs)
                (ap (λ (p : Pointer). p.next) (sym got.fast)) in
            let (ring, items, used) = batch-Puts b q1 x xs got.ring room (omega arith) in
            rw (some_room, done)
              (record {
                ring = ring;
                items = rw (contents-Refreshed got) at items;
                used = omega (arith, used, same);
                answer = λ w w'.
                    sure w'
                    ∙ sym (
                        le→leb _ _
                          (omega (arith, length-contents q, got.next, got.ring.slow.barr_le)));
              })
      ]

  -- `try_pushm` on a well-formed ring keeps it well-formed. With true it has appended all items in
  -- order, with false it has changed none; where no compare-exchange fails it answers true exactly
  -- if all of them fit.
  pub try_pushm-PushesAll :
      {e : ℕ} (weak_barr weak_next : Bool) (q : Rbq A) (xs : List A)
      → IsRing e q
      → q.fast.next + length xs < 2 ^ 62
      → PushesAll e weak_barr weak_next q xs (try_pushm weak_barr weak_next q xs)
  unfolding try_pushm
  try_pushm-PushesAll {e} weak_barr weak_next q [] v r = record {
    ring = v;
    used = omega arith;
    items = sym (append-nil (contents q));
    answer = λ w w'. sym (le→leb _ _ (omega (arith, length-contents q, v.slow.barr_le)));
  }
  try_pushm-PushesAll {e} weak_barr weak_next q (x ∷ []) v r =
      let p = try_push-Pushes weak_barr weak_next q x v (omega arith) in
      record {
        ring = p.ring;
        items = p.items;
        used = p.used;
        answer = λ w w'. p.answer w w' ∙ ltb-leb (length (contents q)) (2 ^ e);
      }
  try_pushm-PushesAll weak_barr weak_next q (x ∷ y ∷ xs) v r =
      push_many-PushesAll weak_barr weak_next q x (y ∷ xs) v r

  -- Pushes of one item after the other, up to the first that finds no room.
  unfoldable pub push_each : Rbq A → List A → Bool × Rbq A
  push_each q [] = (true, q)
  push_each q (x ∷ xs) =
      let (pushed, q1) = try_push false false q x in
      let rest = push_each q1 xs in if pushed then rest else (false, q1)

  push_each-answer :
      {e : ℕ} (q : Rbq A) (xs : List A)
      → IsRing e q
      → q.fast.next + length xs < 2 ^ 62
      → ((push_each q xs).0 ≡ leb (length (contents q) + length xs) (2 ^ e))
        × ((push_each q xs).0 ≡ true → contents (push_each q xs).1 ≡ contents q ++ xs)
  unfolding push_each
  push_each-answer {e} q [] v r = (
    sym (le→leb _ _ (omega (arith, length-contents q, v.slow.barr_le))),
    λ t. sym (append-nil (contents q)),
  )
  push_each-answer {e} q (x ∷ xs) v r =
      let p = try_push-Pushes false false q x v (omega arith) in
      let (pushed, q1) = try_push false false q x in
      let ans : pushed ≡ ltb (length (contents q)) (2 ^ e) = p.answer refl refl in
      elim (Bool-cases pushed) [
        | inl yes_room ↦
            let items : contents q1 ≡ contents q ++ x ∷ [] = rw yes_room at p.items in
            let one_more : q1.fast.next ≤ q.fast.next + 1 = rw yes_room at p.used in
            let (rest, all) = push_each-answer q1 xs p.ring (omega arith) in
            rw yes_room (
              rest
                  ∙ ap (λ n. leb n (2 ^ e))
                      (omega (arith, ap length items, length-append (contents q) (x ∷ []))),
              λ t. all t ∙ ap (λ l. l ++ xs) items ∙ append_assoc (contents q) (x ∷ []) xs,
            )
        | inr no_room ↦
            let full : ltb (length (contents q)) (2 ^ e) ≡ false = sym ans ∙ no_room in
            rw no_room (sym (leb-false _ _ (ground arith)), λ t. absurd (cc))
      ]

  -- A batch push on a well-formed ring, where no compare-exchange fails, answers true exactly if
  -- pushes of its items one after the other all do, and then leaves the same items in the ring; if
  -- not, it leaves the items as they were.
  pub try_pushm-push_each :
      {e : ℕ} (q : Rbq A) (xs : List A)
      → IsRing e q
      → q.fast.next + length xs < 2 ^ 62
      → ((try_pushm false false q xs).0 ≡ (push_each q xs).0)
        × (contents (try_pushm false false q xs).1
            ≡ (if (push_each q xs).0 then contents (push_each q xs).1 else contents q))
  try_pushm-push_each q xs v r =
      let p = try_pushm-PushesAll false false q xs v r in
      let (ans, all) = push_each-answer q xs v r in
      let same = p.answer refl refl ∙ sym ans in
      (
        same,
        p.items
            ∙ ap (λ b. if b then contents q ++ xs else contents q) same
            ∙ elim (Bool-cases (push_each q xs).0) [
              | inl fit ↦ rw fit (sym (all fit))
              | inr full ↦ rw full refl
            ],
      )
