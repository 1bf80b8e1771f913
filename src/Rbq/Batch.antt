-- ===== src/Rbq/Batch.antt =====
-- The batch steps of src/rbq.h, markm_avail, csp_rbq_items_setm and csp_rbq_items_getm, as the single
-- steps one after the other.
use native.Mathlib.Nat.{mod-add-mod, mod_self, mod-eq_of_lt, mod-lt}
use shiyanhui_libcsp.Base.{
  ℕ, zero, suc, ◌+◌, ◌-◌, ◌%◌, ◌^◌, ◌≤◌, ◌<◌, bit_and, bit_and-mask, pow_pos, ◌≡◌, refl, sym, ap,
  ap₂, ◌∙◌, inl, inr, List, [], ◌∷◌, ◌++◌, arith, update, leb, leb→le, Bool-cases, length, take,
  drop, take-append-drop, length-take, length-drop,
}
use shiyanhui_libcsp.Rbq.Ptr.{
  Kind, single, multi, Pointer, add64, mark_avail, mark_avail_by, mark_each, markm_avail,
  markm_avail_by,
}
use shiyanhui_libcsp.Rbq.Items.{items_get, items_set, copy_in, copy_out, items_setm, items_getm}
use shiyanhui_libcsp.Rbq.Inv.{advance, reserve}

-- `n` numbers reserved and finished one after the other.
abbrev pub advances : Pointer → (mask n : ℕ) → Pointer
advances p m zero = p
advances p m (suc n) = advances (advance p m) m n

mark_by-fields :
    (k : Kind) (p : Pointer) (s m : ℕ)
    → ((mark_avail_by k p s m).kind ≡ p.kind) × ((mark_avail_by k p s m).next ≡ p.next)
unfolding mark_avail_by
mark_by-fields single p s m = (refl, refl)
mark_by-fields multi p s m = (refl, refl)

-- A number finished moves neither the kind nor `next`.
pub advance-fields :
    (p : Pointer) (m : ℕ) → ((advance p m).kind ≡ p.kind) × ((advance p m).next ≡ add64 p.next 1)
unfolding mark_avail
advance-fields p m = mark_by-fields p.kind (record p { next = add64 p.next 1 }) p.next m

-- A pointer by its fields.
abbrev pointer : Kind → (next barr : ℕ) → (ℕ → ℕ) → Pointer
pointer k a b s = record { kind = k; next = a; barr = b; stats = s }

advances-single :
    (a b : ℕ) (s : ℕ → ℕ) (m n : ℕ)
    → a + suc n < 2 ^ 64
    → advances (pointer single a b s) m (suc n) ≡ pointer single (a + suc n) (a + suc n) s
unfolding mark_avail mark_avail_by
advances-single a b s m zero fits = let one : (a + 1) % 2 ^ 64 ≡ a + 1 = omega arith in rw one refl
advances-single a b s m (suc n) fits =
    let one : (a + 1) % 2 ^ 64 ≡ a + 1 = omega arith in
    let rest : a + 1 + suc n ≡ a + suc (suc n) = omega arith in
    rw (one, advances-single (a + 1) (a + 1) s m n (omega arith), rest) refl

advances-multi :
    (a b : ℕ) (s : ℕ → ℕ) (m n : ℕ)
    → a + n < 2 ^ 64
    → advances (pointer multi a b s) m n ≡ pointer multi (a + n) b (mark_each n s a m)
unfolding mark_avail mark_avail_by mark_each
advances-multi a b s m zero fits = let all : a + 0 ≡ a = omega arith in rw all refl
advances-multi a b s m (suc n) fits =
    let one : (a + 1) % 2 ^ 64 ≡ a + 1 = omega arith in
    let rest : a + 1 + n ≡ a + suc n = omega arith in
    rw (one, advances-multi (a + 1) b (update s (bit_and a m) a) m n (omega arith), rest) refl

markm_by :
    (k : Kind) (a b : ℕ) (s : ℕ → ℕ) (m n : ℕ)
    → a + suc n < 2 ^ 64
    → markm_avail_by k (reserve (pointer k a b s) (suc n)) a (suc n) m
      ≡ advances (pointer k a b s) m (suc n)
unfolding markm_avail_by
markm_by single a b s m n fits =
    let sum : (a + suc n) % 2 ^ 64 ≡ a + suc n = omega arith in
    rw (sum, advances-single a b s m n fits) refl
markm_by multi a b s m n fits =
    let sum : (a + suc n) % 2 ^ 64 ≡ a + suc n = omega arith in
    rw (sum, advances-multi a b s m (suc n) fits) refl

-- Numbers reserved at once and finished together.
pub markm-advances :
    (p : Pointer) (m n : ℕ)
    → p.next + suc n < 2 ^ 64
    → markm_avail (reserve p (suc n)) p.next (suc n) m ≡ advances p m (suc n)
unfolding markm_avail
markm-advances p m n fits = markm_by p.kind p.next p.barr p.stats m n fits

-- The slot `k` numbers on, and the first slot behind the end of the array.
slot-add : (c s i k : ℕ) → s % c ≡ i → i + k < c → (s + k) % c ≡ i + k
slot-add c s i k at low = sym (mod-add-mod s c k) ∙ ap (λ t. (t + k) % c) at ∙ mod-eq_of_lt low

slot-wrap : (c s i : ℕ) → s % c ≡ i → i ≤ c → (s + (c - i)) % c ≡ 0
slot-wrap c s i at le =
    let whole : i + (c - i) ≡ c = omega arith in
    sym (mod-add-mod s c (c - i))
    ∙ ap (λ t. (t + (c - i)) % c) at
    ∙ ap (λ t. t % c) whole
    ∙ mod_self c

module _ {ℓ} {A : Type ℓ} where
  -- Items written one after the other, from number `s` on.
  abbrev pub set_each : (ℕ → A) → (mask s : ℕ) → List A → ℕ → A
  set_each items m s [] = items
  set_each items m s (x ∷ xs) = set_each (items_set items m s x) m (s + 1) xs

  abbrev pub get_each : (ℕ → A) → (mask s n : ℕ) → List A
  get_each items m s zero = []
  get_each items m s (suc n) = items_get items m s ∷ get_each items m (s + 1) n

  set_each-append :
      (items : ℕ → A) (m s : ℕ) (xs ys : List A)
      → set_each items m s (xs ++ ys) ≡ set_each (set_each items m s xs) m (s + length xs) ys
  set_each-append items m s [] ys = ap (λ t. set_each items m t ys) (omega arith)
  set_each-append items m s (x ∷ xs) ys =
      set_each-append (items_set items m s x) m (s + 1) xs ys
      ∙ ap (λ t. set_each (set_each (items_set items m s x) m (s + 1) xs) m t ys) (omega arith)

  get_each-append :
      (items : ℕ → A) (m s a b : ℕ)
      → get_each items m s (a + b) ≡ get_each items m s a ++ get_each items m (s + a) b
  get_each-append items m s zero b = ap₂ (get_each items m) (omega arith) (omega arith)
  get_each-append items m s (suc a) b =
      let sum : suc a + b ≡ suc (a + b) = omega arith in
      let there : s + 1 + a ≡ s + suc a = omega arith in
      rw (sum, ← there) (ap (λ l. items_get items m s ∷ l) (get_each-append items m (s + 1) a b))

  -- A copy that does not reach the end of the array.
  copy_in-set_each :
      (e : ℕ) (items : ℕ → A) (i s : ℕ) (xs : List A)
      → s % 2 ^ e ≡ i
      → i + length xs ≤ 2 ^ e
      → copy_in items i xs ≡ set_each items (2 ^ e - 1) s xs
  unfolding copy_in items_set
  copy_in-set_each e items i s [] at fits = refl
  copy_in-set_each e items i s (x ∷ []) at fits = rw (bit_and-mask e s, at) refl
  copy_in-set_each e items i s (x ∷ y ∷ xs) at fits =
      rw (bit_and-mask e s, at)
        (copy_in-set_each e (update items i x) (i + 1) (s + 1) (y ∷ xs)
          (slot-add (2 ^ e) s i 1 at (omega arith)) (omega arith))

  copy_out-get_each :
      (e : ℕ) (items : ℕ → A) (i s n : ℕ)
      → s % 2 ^ e ≡ i
      → i + n ≤ 2 ^ e
      → copy_out items i n ≡ get_each items (2 ^ e - 1) s n
  unfolding copy_out items_get
  copy_out-get_each e items i s zero at fits = refl
  copy_out-get_each e items i s (suc zero) at fits = rw (bit_and-mask e s, at) refl
  copy_out-get_each e items i s (suc (suc n)) at fits =
      rw (bit_and-mask e s, at)
        (ap (λ l. items i ∷ l)
          (copy_out-get_each e items (i + 1) (s + 1) (suc n)
            (slot-add (2 ^ e) s i 1 at (omega arith)) (omega arith)))

  -- memcpy in one or two parts writes the items one after the other.
  pub items_setm-set_each :
      (e : ℕ) (items : ℕ → A) (s : ℕ) (xs : List A)
      → length xs ≤ 2 ^ e
      → items_setm items (2 ^ e) (2 ^ e - 1) s xs ≡ set_each items (2 ^ e - 1) s xs
  unfolding items_setm
  items_setm-set_each e items s xs fits =
      let c = 2 ^ e in
      let i = s % c in
      let below = mod-lt s (pow_pos e) in
      rw (bit_and-mask e s) (elim (Bool-cases (leb (i + length xs) c)) [
        | inl whole ↦ rw whole (copy_in-set_each e items i s xs refl (leb→le _ _ whole))
        | inr split ↦
            let k = c - i in
            let more : c < i + length xs = ground arith in
            let front : length (take k xs) ≡ k = omega (arith, length-take k xs) in
            let first = copy_in-set_each e items i s (take k xs) refl (omega arith) in
            let second =
              copy_in-set_each e (set_each items (c - 1) s (take k xs)) 0 (s + k) (drop k xs)
                (slot-wrap c s i refl (omega arith)) (omega (arith, length-drop k xs)) in
            rw (split, first, second)
              (sym (
                ap (set_each items (c - 1) s) (sym (take-append-drop k xs))
                ∙ set_each-append items (c - 1) s (take k xs) (drop k xs)
                ∙ ap
                    (λ t.
                      set_each (set_each items (c - 1) s (take k xs)) (c - 1) (s + t) (drop k xs))
                    front))
      ])

  pub items_getm-get_each :
      (e : ℕ) (items : ℕ → A) (s n : ℕ)
      → n ≤ 2 ^ e
      → items_getm items (2 ^ e) (2 ^ e - 1) s n ≡ get_each items (2 ^ e - 1) s n
  unfolding items_getm
  items_getm-get_each e items s n fits =
      let c = 2 ^ e in
      let i = s % c in
      let below = mod-lt s (pow_pos e) in
      rw (bit_and-mask e s) (elim (Bool-cases (leb (i + n) c)) [
        | inl whole ↦ rw whole (copy_out-get_each e items i s n refl (leb→le _ _ whole))
        | inr split ↦
            let k = c - i in
            let more : c < i + n = ground arith in
            let sum : k + (n - k) ≡ n = omega arith in
            let first = copy_out-get_each e items i s k refl (omega arith) in
            let second =
              copy_out-get_each e items 0 (s + k) (n - k) (slot-wrap c s i refl (omega arith))
                (omega arith) in
            rw (split, first, second)
              (sym (get_each-append items (c - 1) s k (n - k)) ∙ ap (get_each items (c - 1) s) sum)
      ])
