-- ===== src/Rbq/Items.antt =====
-- csp_rbq_items of src/rbq.h: the item array, read and written one at a time or by memcpy.
use shiyanhui_libcsp.Base.{
  ℕ, zero, suc, ◌+◌, ◌-◌, bit_and, List, [], ◌∷◌, ◌++◌, leb, if◌then◌else◌, update, length, take,
  drop,
}

module _ {ℓ} {A : Type ℓ} where
  unfoldable pub items_get : (ℕ → A) → (mask seqv : ℕ) → A
  items_get items mask seqv = items (bit_and seqv mask)

  unfoldable pub items_set : (ℕ → A) → (mask seqv : ℕ) → A → ℕ → A
  items_set items mask seqv item = update items (bit_and seqv mask) item

  -- memcpy of a list to `items + i`, and of `n` items from there.
  unfoldable pub copy_in : (ℕ → A) → ℕ → List A → ℕ → A
  copy_in items i [] = items
  copy_in items i (x ∷ xs) = copy_in (update items i x) (i + 1) xs

  unfoldable pub copy_out : (ℕ → A) → ℕ → ℕ → List A
  copy_out items i zero = []
  copy_out items i (suc n) = items i ∷ copy_out items (i + 1) n

  unfoldable pub items_getm : (ℕ → A) → (cap mask start n : ℕ) → List A
  unfolding copy_out
  items_getm items cap mask start n =
      let i = bit_and start mask in
      if leb (i + n) cap
      then copy_out items i n
      else copy_out items i (cap - i) ++ copy_out items 0 (n - (cap - i))

  unfoldable pub items_setm : (ℕ → A) → (cap mask start : ℕ) → List A → ℕ → A
  unfolding copy_in
  items_setm items cap mask start src =
      let i = bit_and start mask in
      if leb (i + length src) cap
      then copy_in items i src
      else copy_in (copy_in items i (take (cap - i) src)) 0 (drop (cap - i) src)
