-- ===== src/Base/Lists.antt =====
-- Lists measured and indexed by native numbers.
use Prim.Native.Nat.{ℕ, zero, suc, ◌+◌, ◌-◌, ◌<◌, ◌≤◌, min}
use mathlib.Core.Path.{◌≡◌, refl, ap}
use mathlib.Core.Logic.{◌⊎◌, inl, inr, ◌≢◌}
use mathlib.Core.Bool.{Bool, true, false, ◌||◌}
use mathlib.Core.List.{List, [], ◌∷◌, ◌++◌}
use native.Mathlib.Omega.{arith}
use shiyanhui_libcsp.Base.Tests.{◌==◌, if◌then◌else◌, eq→==, ne→==, Bool-cases}

module _ {ℓ} {A : Type ℓ} where
  abbrev pub length : List A → ℕ
  length [] = 0
  length (x ∷ xs) = suc (length xs)

  abbrev pub get_or : List A → ℕ → A → A
  get_or [] i d = d
  get_or (x ∷ xs) zero d = x
  get_or (x ∷ xs) (suc i) d = get_or xs i d

  -- A write out of bounds changes nothing.
  abbrev pub set : List A → ℕ → A → List A
  set [] i v = []
  set (x ∷ xs) zero v = v ∷ xs
  set (x ∷ xs) (suc i) v = x ∷ set xs i v

  abbrev pub take : ℕ → List A → List A
  take zero xs = []
  take (suc n) [] = []
  take (suc n) (x ∷ xs) = x ∷ take n xs

  abbrev pub drop : ℕ → List A → List A
  drop zero xs = xs
  drop (suc n) [] = []
  drop (suc n) (x ∷ xs) = drop n xs

module _ {ℓ} {A : Type ℓ} where
  pub empty_or : (xs : List A) → (xs ≡ []) ⊎ (0 < length xs)
  empty_or [] = inl refl
  empty_or (x ∷ xs) = inr (omega arith)

  pub length-append : (xs ys : List A) → length (xs ++ ys) ≡ length xs + length ys
  length-append [] ys = omega arith
  length-append (x ∷ xs) ys = omega (arith, length-append xs ys)

  pub length-set : (xs : List A) (i : ℕ) (v : A) → length (set xs i v) ≡ length xs
  length-set [] i v = refl
  length-set (x ∷ xs) zero v = refl
  length-set (x ∷ xs) (suc i) v = ap suc (length-set xs i v)

  pub get_or-set_self :
      (xs : List A) (i : ℕ) (v d : A) → i < length xs → get_or (set xs i v) i d ≡ v
  get_or-set_self [] i v d h = absurd (omega arith)
  get_or-set_self (x ∷ xs) zero v d h = refl
  get_or-set_self (x ∷ xs) (suc i) v d h = get_or-set_self xs i v d (omega arith)

  pub get_or-set_ne :
      (xs : List A) (i j : ℕ) (v d : A) → i ≢ j → get_or (set xs i v) j d ≡ get_or xs j d
  get_or-set_ne [] i j v d h = refl
  get_or-set_ne (x ∷ xs) zero zero v d h = absurd (h refl)
  get_or-set_ne (x ∷ xs) zero (suc j) v d h = refl
  get_or-set_ne (x ∷ xs) (suc i) zero v d h = refl
  get_or-set_ne (x ∷ xs) (suc i) (suc j) v d h = get_or-set_ne xs i j v d (λ e. h (ap suc e))

  pub take-append-drop : (n : ℕ) (xs : List A) → take n xs ++ drop n xs ≡ xs
  take-append-drop zero xs = refl
  take-append-drop (suc n) [] = refl
  take-append-drop (suc n) (x ∷ xs) = rw (take-append-drop n xs)

  pub length-take : (n : ℕ) (xs : List A) → length (take n xs) ≡ min n (length xs)
  length-take zero xs = omega arith
  length-take (suc n) [] = omega arith
  length-take (suc n) (x ∷ xs) = omega (arith, length-take n xs)

  pub length-drop : (n : ℕ) (xs : List A) → length (drop n xs) ≡ length xs - n
  length-drop zero xs = omega arith
  length-drop (suc n) [] = omega arith
  length-drop (suc n) (x ∷ xs) = omega (arith, length-drop n xs)

-- Whether an address is in a list.
abbrev pub has : ℕ → List ℕ → Bool
has a [] = false
has a (x ∷ xs) = (x == a) || has a xs

abbrev pub Distinct : List ℕ → Type 0
Distinct [] = Unit {0}
Distinct (x ∷ xs) = (has x xs ≡ false) × Distinct xs

-- The first and the last element, or another value.
abbrev pub head_or : ℕ → List ℕ → ℕ
head_or d [] = d
head_or d (x ∷ xs) = x

abbrev pub last_of : ℕ → List ℕ → ℕ
last_of d [] = d
last_of d (x ∷ xs) = last_of x xs

pub last_of-has : (d x : ℕ) (xs : List ℕ) → has (last_of d (x ∷ xs)) (x ∷ xs) ≡ true
last_of-has d x [] = ground arith
last_of-has d x (y ∷ xs) = ground (arith, last_of-has x y xs)

pub has-append : (a : ℕ) (xs ys : List ℕ) → has a (xs ++ ys) ≡ (has a xs || has a ys)
has-append a [] ys = refl
has-append a (x ∷ xs) ys = ground (arith, has-append a xs ys)

-- How often a number is on a list.
abbrev pub times : ℕ → List ℕ → ℕ
times p [] = zero
times p (x ∷ xs) = times p xs + (if x == p then 1 else 0)

module _ (p : ℕ) where
  pub times-append : (front back : List ℕ) → times p (front ++ back) ≡ times p front + times p back
  times-append [] back = omega arith
  times-append (x ∷ front) back = let rest = times-append front back in omega arith

-- The sum of `f` below `n`.
abbrev pub total : (n : ℕ) → (f : ℕ → ℕ) → ℕ
total zero f = 0
total (suc n) f = total n f + f n

pub total_add : (n : ℕ) (f g : ℕ → ℕ) → total n (λ k. f k + g k) ≡ total n f + total n g
total_add zero f g = refl
total_add (suc n) f g = omega (arith, total_add n f g)

pub total_ext : (n : ℕ) (f g : ℕ → ℕ) → ((k : ℕ) → f k ≡ g k) → total n f ≡ total n g
total_ext zero f g h = refl
total_ext (suc n) f g h = omega (arith, total_ext n f g h, h n)

total_none : (n i v : ℕ) → n ≤ i → total n (λ k. if k == i then v else 0) ≡ 0
total_none zero i v h = refl
total_none (suc n) i v h =
    rw (ne→== n i (λ t. absurd (omega (arith, t)))) (omega (arith, total_none n i v (omega arith)))

pub total_single : (n i v : ℕ) → i < n → total n (λ k. if k == i then v else 0) ≡ v
total_single zero i v h = absurd (omega arith)
total_single (suc n) i v h = elim (Bool-cases (n == i)) [
  | inl here ↦
      let same : n ≡ i = ground arith in rw here (omega (arith, total_none n i v (omega arith)))
  | inr below ↦
      let apart : n ≢ i = λ t. cc (eq→== n i t) in
      rw below (omega (arith, total_single n i v (ground arith)))
]
