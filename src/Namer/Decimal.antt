-- ===== src/Namer/Decimal.antt =====
-- Decimal numbers, printed and read.
use shiyanhui_libcsp.Base.{
  ℕ, zero, suc, ◌+◌, ◌-◌, ◌*◌, ◌/◌, ◌%◌, ◌≤◌, ◌<◌, ◌≡◌, refl, ap, ◌∙◌, inl, inr, Bool, true, false,
  ◌&&◌, Bool-cases, ltb, [], ◌∷◌, ◌++◌, arith, has,
}
use shiyanhui_libcsp.Namer.{Text, underscore, digit_zero, print, is_digit, read_on}

abbrev pub all_digits : Text → Bool
all_digits [] = true
all_digits (c ∷ cs) = is_digit c && all_digits cs

digit-is : (d : ℕ) → d < 10 → is_digit (digit_zero + d) ≡ true
digit-is d h = ground arith

all_digits-snoc :
    (xs : Text) (c : ℕ)
    → all_digits xs ≡ true
    → is_digit c ≡ true
    → all_digits (xs ++ c ∷ []) ≡ true
all_digits-snoc [] c h d = ground arith
all_digits-snoc (x ∷ xs) c h d = ground (arith, all_digits-snoc xs c)

pub print-all_digits : (fuel n : ℕ) → all_digits (print fuel n) ≡ true
unfolding print
print-all_digits zero n = refl
print-all_digits (suc fuel) n = elim (Bool-cases (ltb n 10)) [
  | inl small ↦ rw small (let lt : n < 10 = ground arith in ground (arith, digit-is n lt))
  | inr large ↦ rw large (
      all_digits-snoc (print fuel (n / 10)) _ (print-all_digits fuel (n / 10))
        (digit-is (n % 10) (omega arith)))
]

pub no_underscore : (xs : Text) → all_digits xs ≡ true → has underscore xs ≡ false
no_underscore [] h = refl
no_underscore (x ∷ xs) h = ground (arith, no_underscore xs)

read_on-snoc :
    (value : ℕ) (xs : Text) (c : ℕ)
    → all_digits xs ≡ true
    → is_digit c ≡ true
    → read_on value (xs ++ c ∷ []) ≡ read_on value xs * 10 + (c - digit_zero)
unfolding read_on
read_on-snoc value [] c h d = rw d refl
read_on-snoc value (x ∷ xs) c h d =
    let first : is_digit x ≡ true = ground arith in
    let rest : all_digits xs ≡ true = ground arith in
    rw first (read_on-snoc (value * 10 + (x - digit_zero)) xs c rest d)

pub read_on-print : (fuel n : ℕ) → n < fuel → read_on 0 (print fuel n) ≡ n
unfolding print read_on
read_on-print zero n h = absurd (omega arith)
read_on-print (suc fuel) n h = elim (Bool-cases (ltb n 10)) [
  | inl small ↦ let lt : n < 10 = ground arith in rw (small, digit-is n lt) (omega arith)
  | inr large ↦
      let ge : 10 ≤ n = ground arith in
      let d : is_digit (digit_zero + n % 10) ≡ true = digit-is (n % 10) (omega arith) in
      rw large (
        read_on-snoc 0 (print fuel (n / 10)) (digit_zero + n % 10) (print-all_digits fuel (n / 10))
          d
        ∙ ap (λ v. v * 10 + (digit_zero + n % 10 - digit_zero))
            (read_on-print fuel (n / 10) (omega arith))
        ∙ omega arith)
]
