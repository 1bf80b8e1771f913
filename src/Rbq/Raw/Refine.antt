-- ===== src/Rbq/Raw/Refine.antt =====
-- The raw queue of src/rbq.h against the list of the items in it, across the wrap of its numbers.
use native.Mathlib.Nat.{mul_assoc, mod-add-mod, add-mul-mod_self_right}
use shiyanhui_libcsp.Base.{
  ℕ, zero, suc, ◌+◌, ◌-◌, ◌*◌, ◌/◌, ◌%◌, ◌^◌, ◌≤◌, ◌<◌, bit_and, bit_and-mask, ◌≡◌, ◌≢◌, refl, sym,
  ap, ap₂, subst, ◌∙◌, List, [], ◌∷◌, ◌++◌, Option, none, some, arith, ltb, if◌then◌else◌, update,
  ne→==, eq→==, length, pow_pos, pow-suc, Bool-cases, inl, inr,
}
use shiyanhui_libcsp.Rbq.Items.{items_get, items_set}
use shiyanhui_libcsp.Rbq.Inv.{mod-ne}
use shiyanhui_libcsp.Rbq.Ring.{window, length-window, window-update}
use shiyanhui_libcsp.Rbq.Raw.{Raw, len, try_push, try_push_front, try_pop}

pow-add : (a b : ℕ) → 2 ^ (a + b) ≡ 2 ^ a * 2 ^ b
pow-add a zero = let same : a + 0 ≡ a = omega arith in rw same (omega arith)
pow-add a (suc b) =
    let step : a + suc b ≡ suc (a + b) = omega arith in
    rw (step, pow-suc, pow-suc, pow-add a b) (mul_assoc (2 ^ a) (2 ^ b) 2)

-- A number of 64 bits keeps its remainder by a smaller power of two when it wraps.
pub wrap-mod : (e x : ℕ) → e ≤ 64 → x % 2 ^ 64 % 2 ^ e ≡ x % 2 ^ e
wrap-mod e x h =
    let sum : 64 ≡ 64 - e + e = omega arith in
    let split : 2 ^ 64 ≡ 2 ^ (64 - e) * 2 ^ e = ap (λ k. 2 ^ k) sum ∙ pow-add (64 - e) e in
    let parts : x / 2 ^ 64 * 2 ^ (64 - e) * 2 ^ e ≡ x / 2 ^ 64 * 2 ^ 64 =
      mul_assoc (x / 2 ^ 64) (2 ^ (64 - e)) (2 ^ e) ∙ ap (λ t. x / 2 ^ 64 * t) (sym split) in
    let whole : x ≡ x % 2 ^ 64 + x / 2 ^ 64 * 2 ^ (64 - e) * 2 ^ e = omega arith in
    sym (
      ap (λ t. t % 2 ^ e) whole
      ∙ add-mul-mod_self_right (x % 2 ^ 64) (x / 2 ^ 64 * 2 ^ (64 - e)) (2 ^ e))

pub cap_small : (e : ℕ) → e ≤ 30 → 2 ^ e ≤ 2 ^ 30
cap_small e h =
    let sum : 30 ≡ 30 - e + e = omega arith in
    let split : 2 ^ 30 ≡ 2 ^ (30 - e) * 2 ^ e = ap (λ k. 2 ^ k) sum ∙ pow-add (30 - e) e in
    let some_left = pow_pos (30 - e) in grind arith

module _ {ℓ} {A : Type ℓ} where
  -- A queue between operations.
  pub record IsRaw (e : ℕ) (q : Raw A) : Type 0 where
    pub cap : q.cap ≡ 2 ^ e
    pub mask : q.mask ≡ 2 ^ e - 1
    pub size : e ≤ 30
    pub slow : q.slow < 2 ^ 64
    pub fast : q.fast < 2 ^ 64
    pub fits : len q ≤ 2 ^ e

  -- The items from the readers' number on.
  abbrev pub contents : Raw A → List A
  contents q = window q.items q.cap q.slow (len q)

  -- A window depends on the slot where it starts, not on the number.
  window-start :
      (items : ℕ → A) (k s t n : ℕ) → s % k ≡ t % k → window items k s n ≡ window items k t n
  unfolding window
  window-start items k s t zero e = refl
  window-start items k s t (suc n) e =
      let next : (s + 1) % k ≡ (t + 1) % k =
        sym (mod-add-mod s k 1) ∙ ap (λ r. (r + 1) % k) e ∙ mod-add-mod t k 1 in
      ap₂ ◌∷◌ (ap items e) (window-start items k (s + 1) (t + 1) n next)

  -- A write to no slot of a window leaves it.
  window-other :
      (items : ℕ → A) (k s n i : ℕ) (x : A)
      → ((j : ℕ) → j < n → i ≢ (s + j) % k)
      → window (update items i x) k s n ≡ window items k s n
  unfolding window
  window-other items k s zero i x h = refl
  window-other items k s (suc n) i x h =
      let here = h 0 (omega arith) in
      let first : s + 0 ≡ s = omega arith in
      ap₂ ◌∷◌ (rw (ne→== i (s % k) (λ t. here (t ∙ ap (λ r. r % k) (sym first))))) (
        window-other items k (s + 1) n i x (λ j l t.
          let shift : s + 1 + j ≡ s + suc j = omega arith in
          h (suc j) (omega arith) (t ∙ ap (λ r. r % k) shift)))

  pub slot : (e : ℕ) (q : Raw A) (i : ℕ) → IsRaw e q → bit_and i q.mask ≡ i % q.cap
  slot e q i v = ap (bit_and i) v.mask ∙ bit_and-mask e i ∙ ap (λ c. i % c) (sym v.cap)

  -- Two numbers that are the same modulo 2 ^ 64 stand in the same slot.
  pub same_slot :
      (e : ℕ) (q : Raw A) (i j : ℕ) → IsRaw e q → i % 2 ^ 64 ≡ j % 2 ^ 64 → i % q.cap ≡ j % q.cap
  same_slot e q i j v h =
      let small : e ≤ 64 = omega (arith, v.size) in
      rw v.cap (sym (wrap-mod e i small) ∙ ap (λ t. t % 2 ^ e) h ∙ wrap-mod e j small)

  abbrev pub pushed : Raw A → A → Raw A
  pushed q x = record q { items = items_set q.items q.mask q.fast x; fast = (q.fast + 1) % 2 ^ 64 }

  len-pushed :
      (e : ℕ) (q : Raw A) (x : A) → IsRaw e q → len q < 2 ^ e → len (pushed q x) ≡ suc (len q)
  unfolding len
  len-pushed e q x v room = omega (arith, cap_small e v.size, v.slow, v.fast)

  pushed-IsRaw : (e : ℕ) (q : Raw A) (x : A) → IsRaw e q → len q < 2 ^ e → IsRaw e (pushed q x)
  pushed-IsRaw e q x v room = record {
    cap = v.cap;
    mask = v.mask;
    size = v.size;
    slow = v.slow;
    fast = omega arith;
    fits = omega (arith, len-pushed e q x v room);
  }

  pub end_number : (q : Raw A) → q.slow < 2 ^ 64 → q.fast % 2 ^ 64 ≡ (q.slow + len q) % 2 ^ 64
  unfolding len
  end_number q h = omega arith

  contents-pushed :
      (e : ℕ) (q : Raw A) (x : A)
      → IsRaw e q
      → len q < 2 ^ e
      → contents (pushed q x) ≡ contents q ++ x ∷ []
  unfolding items_set
  contents-pushed e q x v room = rw (len-pushed e q x v room) (
      window-update q.items q.cap q.slow (len q) _ x (omega (arith, v.cap))
        (slot e q q.fast v ∙ same_slot e q q.fast (q.slow + len q) v (end_number q v.slow)))

  -- `try_push` answers true exactly if there is room; then the item is the last one, and otherwise
  -- nothing changes.
  pub try_push-append :
      (e : ℕ) (q : Raw A) (x : A)
      → IsRaw e q
      → IsRaw e (try_push q x).1
        × ((try_push q x).0 ≡ ltb (length (contents q)) (2 ^ e))
        × (contents (try_push q x).1
            ≡ (if (try_push q x).0 then contents q ++ x ∷ [] else contents q))
  unfolding try_push
  try_push-append e q x v =
      let count = length-window q.items q.cap q.slow (len q) in
      elim (Bool-cases (ltb (len q) q.cap)) [
        | inl room ↦
            let lt : len q < 2 ^ e = ground (arith, v.cap) in
            rw (room, count) (pushed-IsRaw e q x v lt, ground arith, contents-pushed e q x v lt)
        | inr full ↦ rw (full, count) (v, ground (arith, v.cap), refl)
      ]

  abbrev before : Raw A → ℕ
  before q = (q.slow + 2 ^ 64 - 1) % 2 ^ 64

  abbrev fronted : Raw A → A → Raw A
  fronted q x = record q { items = items_set q.items q.mask (before q) x; slow = before q }

  len-fronted :
      (e : ℕ) (q : Raw A) (x : A) → IsRaw e q → len q < 2 ^ e → len (fronted q x) ≡ suc (len q)
  unfolding len
  len-fronted e q x v room = omega (arith, cap_small e v.size, v.slow, v.fast)

  fronted-IsRaw : (e : ℕ) (q : Raw A) (x : A) → IsRaw e q → len q < 2 ^ e → IsRaw e (fronted q x)
  fronted-IsRaw e q x v room = record {
    cap = v.cap;
    mask = v.mask;
    size = v.size;
    slow = omega arith;
    fast = v.fast;
    fits = omega (arith, len-fronted e q x v room);
  }

  contents-fronted :
      (e : ℕ) (q : Raw A) (x : A)
      → IsRaw e q
      → len q < 2 ^ e
      → contents (fronted q x) ≡ x ∷ contents q
  unfolding items_set window
  contents-fronted e q x v room =
      let at = slot e q (before q) v in
      let next : (before q + 1) % 2 ^ 64 ≡ q.slow % 2 ^ 64 = omega (arith, v.slow) in
      let rest =
        window-other q.items q.cap (before q + 1) (len q) (bit_and (before q) q.mask) x (λ j l t.
          let later : before q + 1 + j < before q + q.cap = omega (arith, v.cap) in
          mod-ne q.cap (before q) (before q + 1 + j) (omega arith) later (sym at ∙ t)) in
      rw (len-fronted e q x v room) (
        ap₂ ◌∷◌ (rw (eq→== (bit_and (before q) q.mask) (before q % q.cap) at)) (
          rest
          ∙ window-start q.items q.cap (before q + 1) q.slow (len q)
              (same_slot e q (before q + 1) q.slow v next)))

  -- `try_push_front` answers true exactly if there is room; then the item is the first one, and
  -- otherwise nothing changes. The readers' number may go below 0 and wrap.
  pub try_push_front-cons :
      (e : ℕ) (q : Raw A) (x : A)
      → IsRaw e q
      → IsRaw e (try_push_front q x).1
        × ((try_push_front q x).0 ≡ ltb (length (contents q)) (2 ^ e))
        × (contents (try_push_front q x).1
            ≡ (if (try_push_front q x).0 then x ∷ contents q else contents q))
  unfolding try_push_front
  try_push_front-cons e q x v =
      let count = length-window q.items q.cap q.slow (len q) in
      elim (Bool-cases (ltb (len q) q.cap)) [
        | inl room ↦
            let lt : len q < 2 ^ e = ground (arith, v.cap) in
            rw (room, count) (fronted-IsRaw e q x v lt, ground arith, contents-fronted e q x v lt)
        | inr full ↦ rw (full, count) (v, ground (arith, v.cap), refl)
      ]

  -- `try_push` and `try_push_front` answer true exactly if there is room; then the item is the last
  -- one, or the first, and otherwise the contents do not change.
  pub raw_ends :
      (e : ℕ) (q : Raw A) (x : A)
      → IsRaw e q
      → (IsRaw e (try_push q x).1
          × ((try_push q x).0 ≡ ltb (length (contents q)) (2 ^ e))
          × (contents (try_push q x).1
              ≡ (if (try_push q x).0 then contents q ++ x ∷ [] else contents q)))
        × (IsRaw e (try_push_front q x).1
            × ((try_push_front q x).0 ≡ ltb (length (contents q)) (2 ^ e))
            × (contents (try_push_front q x).1
                ≡ (if (try_push_front q x).0 then x ∷ contents q else contents q)))
  raw_ends e q x v = (try_push-append e q x v, try_push_front-cons e q x v)

  abbrev pub popped : Raw A → Raw A
  popped q = record q { slow = (q.slow + 1) % 2 ^ 64 }

  len-popped :
      (q : Raw A) → q.slow < 2 ^ 64 → q.fast < 2 ^ 64 → 0 < len q → suc (len (popped q)) ≡ len q
  unfolding len
  len-popped q a b some_left = omega arith

  contents-popped :
      (e : ℕ) (q : Raw A)
      → IsRaw e q
      → 0 < len q
      → contents q ≡ items_get q.items q.mask q.slow ∷ contents (popped q)
  unfolding items_get window
  contents-popped e q v some_left = rw (← len-popped q v.slow v.fast some_left) (
      ap₂ ◌∷◌ (ap q.items (sym (slot e q q.slow v))) (
        window-start q.items q.cap (q.slow + 1) ((q.slow + 1) % 2 ^ 64) (len (popped q))
          (same_slot e q (q.slow + 1) ((q.slow + 1) % 2 ^ 64) v (omega arith))))

  -- What a pop may do: hand out the first item, or find the queue empty and change nothing.
  abbrev pub Takes : ℕ → Raw A → Option A → Raw A → Type ℓ
  Takes e q none r = (contents q ≡ []) × (r ≡ q)
  Takes e q (some x) r = IsRaw e r × (contents q ≡ x ∷ contents r)

  -- `try_pop` gives the first item and drops it, or gives none from an empty queue, which it leaves as
  -- it is.
  pub try_pop-first : (e : ℕ) (q : Raw A) → IsRaw e q → Takes e q (try_pop q).0 (try_pop q).1
  unfolding try_pop window
  try_pop-first e q v = elim (Bool-cases (ltb 0 (len q))) [
    | inl some_left ↦
        let lt : 0 < len q = ground arith in
        let done : try_pop q ≡ (some (items_get q.items q.mask q.slow), popped q) = rw some_left in
        subst (λ (r : Option A × Raw A). Takes e q r.0 r.1) (sym done)
          (
            record {
              cap = v.cap;
              mask = v.mask;
              size = v.size;
              slow = omega arith;
              fast = v.fast;
              fits = omega (arith, v.fits, len-popped q v.slow v.fast lt);
            },
            contents-popped e q v lt,
          )
    | inr nothing ↦
        let zero_len : len q ≡ 0 = ground arith in
        let done : try_pop q ≡ (none, q) = rw nothing in
        subst (λ (r : Option A × Raw A). Takes e q r.0 r.1) (sym done) (rw (zero_len, window), refl)
  ]
