-- ===== src/Exp.antt =====
-- csp_exp of src/common.h: the exponent of the least power of two that is not below a number.
mod Tests
use shiyanhui_libcsp.Base.{
  ℕ, zero, suc, ◌+◌, ◌/◌, ◌^◌, ◌≤◌, ◌<◌, ◌*◌, ◌≡◌, arith, ltb, ◌==◌, if◌then◌else◌, pow-suc,
  pow_pos, Bool-cases, inl, inr, Option, none, some, refl, ap, lt→ltb,
}
use native.Mathlib.Nat.{pow-le-pow_right}
use native.Mathlib.Numerals.{add-one}
use native.Mathlib.Decide.{dec_lt}

-- `while (tmp != 1) { exp++; tmp >>= 1; }` on fuel; `none` is a loop that has not ended.
pub exp_loop : ℕ → ℕ → ℕ → Option ℕ
exp_loop zero tmp e = none
exp_loop (suc fuel) tmp e =
    let rest = exp_loop fuel (tmp / 2) (e + 1) in if tmp == 1 then some e else rest

-- `csp_exp(num)`. The fuel is `num`; `1 << exp` is an `int`.
unfoldable pub csp_exp : ℕ → Option ℕ
unfolding exp_loop
csp_exp num =
    if ltb 0 num
    then elim (exp_loop num num 0) [
      | none ↦ none
      | some e ↦ some (if 2 ^ e == num then e else e + 1)
    ]
    else some 0

-- The loop counts the halvings: the result is the floor of the logarithm.
exp_loop_log :
    (fuel tmp e : ℕ)
    → 0 < tmp
    → tmp ≤ fuel
    → (r : ℕ) × (exp_loop fuel tmp e ≡ some (e + r)) × (2 ^ r ≤ tmp) × (tmp < 2 ^ r * 2)
unfolding exp_loop
exp_loop_log zero tmp e h f = absurd (omega arith)
exp_loop_log (suc fuel) tmp e h f = elim (Bool-cases (tmp == 1)) [
  | inl one ↦ (0, rw one (ap some (omega arith)), ground arith, ground arith)
  | inr more ↦
      let (r, ends, lo, hi) = exp_loop_log fuel (tmp / 2) (e + 1) (ground arith) (ground arith) in
      (
        suc r,
        rw (more, ends) (ap some (omega arith)),
        rw pow-suc (omega arith),
        rw pow-suc (omega arith),
      )
]

pow-le_cancel : (a b : ℕ) → 2 ^ a ≤ 2 ^ b → a ≤ b
pow-le_cancel a b h = elim (dec_lt b a) [
  | yes p ↦
      let up : 2 ^ suc b ≤ 2 ^ a = pow-le-pow_right (omega arith) p in
      absurd (omega (arith, pow-suc 2 b, pow_pos b))
  | no p ↦ omega arith
]

pow-lt_cancel : (a b : ℕ) → 2 ^ a < 2 ^ b → a < b
pow-lt_cancel a b h = elim (dec_lt a b) [
  | yes p ↦ p
  | no p ↦
      let up : 2 ^ b ≤ 2 ^ a = pow-le-pow_right (omega arith) (omega arith) in absurd (omega arith)
]

-- The exponent that the last step of the macro picks.
round_up : (num r : ℕ) → ℕ
round_up num r = if 2 ^ r == num then r else r + 1

round_up_ceil :
    (num r : ℕ)
    → 2 ^ r ≤ num
    → num < 2 ^ r * 2
    → (num ≤ 2 ^ round_up num r) × ((d : ℕ) → num ≤ 2 ^ d → round_up num r ≤ d)
unfolding round_up
round_up_ceil num r lo hi = elim (Bool-cases (2 ^ r == num)) [
  | inl exact ↦ rw exact (ground arith, λ d k. pow-le_cancel r d (omega arith))
  | inr above ↦
      let more : 2 ^ r < num = ground arith in
      rw above (
        rw add-one (omega (arith, pow-suc 2 r)),
        λ d k. omega (arith, pow-lt_cancel r d (omega arith)),
      )
]

-- For `0 < num` `csp_exp` ends and gives the ceiling of the binary logarithm: the power
-- reaches `num`, and no smaller power does.
csp_exp_ceil :
    (num : ℕ)
    → 0 < num
    → (e : ℕ) × (csp_exp num ≡ some e) × (num ≤ 2 ^ e) × ((d : ℕ) → num ≤ 2 ^ d → e ≤ d)
unfolding csp_exp round_up
csp_exp_ceil num h =
    let (r, ends, lo, hi) = exp_loop_log num num 0 h (omega arith) in
    let (reach, least) = round_up_ceil num r lo hi in
    (
      round_up num r,
      rw (lt→ltb 0 num h, ends) (ap some (ap (round_up num) (omega arith))),
      reach,
      least,
    )
