-- ===== src/Rbq/Raw/Grow.antt =====
-- The growth of the raw queue of src/rbq.h: the mask is not widened with the capacity.
use shiyanhui_libcsp.Base.{
  ℕ, ◌+◌, ◌*◌, ◌%◌, ◌^◌, ◌≡◌, ◌<◌, bit_and, refl, sym, ap, ◌∙◌, true, some, arith, ◌==◌, ltb,
  lt→ltb, pow_pos, eq→==,
}
use native.Mathlib.Nat.{add-mod_right}
use shiyanhui_libcsp.Rbq.Items.{items_get, items_set}
use shiyanhui_libcsp.Rbq.Raw.{Raw, len, try_push, try_pop, try_grow}
use shiyanhui_libcsp.Rbq.Raw.Refine.{IsRaw, pushed, cap_small, end_number, same_slot, slot}

module _ {ℓ} {A : Type ℓ} where
  abbrev grown : Raw A → Raw A
  grown q = record q { cap = q.cap * 2 % 2 ^ 64 }

  len-grown : (q : Raw A) → len (grown q) ≡ len q
  unfolding len
  len-grown q = refl

  len-pushed_pos :
      (e : ℕ) (q : Raw A) (x : A) → IsRaw e q → len q ≡ 2 ^ e → 0 < len (pushed (grown q) x)
  unfolding len
  len-pushed_pos e q x v full = omega (arith, cap_small e v.size, v.slow, v.fast)

  -- A full ring writes to the slot that it reads next.
  full_slot :
      (e : ℕ) (q : Raw A)
      → IsRaw e q
      → len q ≡ 2 ^ e
      → bit_and q.fast q.mask ≡ bit_and q.slow q.mask
  full_slot e q v full =
      let around : (q.slow + len q) % q.cap ≡ q.slow % q.cap =
        ap (λ t. (q.slow + t) % q.cap) (full ∙ sym v.cap) ∙ add-mod_right q.slow q.cap in
      slot e q q.fast v
      ∙ same_slot e q q.fast (q.slow + len q) v (end_number q v.slow)
      ∙ around
      ∙ sym (slot e q q.slow v)

  -- Where a full raw queue is grown and an item is pushed, the push answers true and overwrites the
  -- oldest item: the next pop gives the new item instead.
  pub try_grow-overwrites :
      (e : ℕ) (q : Raw A) (x : A)
      → IsRaw e q
      → len q ≡ 2 ^ e
      → ((try_push (try_grow true q).1 x).0 ≡ true)
        × ((try_pop (try_push (try_grow true q).1 x).1).0 ≡ some x)
  unfolding try_grow try_push try_pop items_get items_set
  try_grow-overwrites e q x v full =
      let small = cap_small e v.size in
      let pos = pow_pos e in
      let room : ltb (len (grown q)) (q.cap * 2 % 2 ^ 64) ≡ true =
        lt→ltb _ _ (omega (arith, len-grown q, v.cap)) in
      let some_left : ltb 0 (len (pushed (grown q) x)) ≡ true =
        lt→ltb _ _ (len-pushed_pos e q x v full) in
      let here : (bit_and q.fast q.mask == bit_and q.slow q.mask) ≡ true =
        eq→== _ _ (full_slot e q v full) in
      rw room (refl, rw (some_left, here))
