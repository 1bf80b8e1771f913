-- ===== src/Analyzer/Waits.antt =====
-- The callees that a function of the reversed call graph of plugin/sa.hpp still waits for.
use shiyanhui_libcsp.Base.{
  ℕ, ◌+◌, ◌^◌, ◌≤◌, ◌<◌, ◌≡◌, refl, sym, ap, ◌∙◌, inl, inr, true, false, Bool-cases, ◌==◌,
  if◌then◌else◌, List, [], ◌∷◌, arith, eq→==, ne→==, has, Distinct, length,
}
use shiyanhui_libcsp.Analyzer.{Name, Graph, degree, callers_of}

abbrev pub keys : Graph → List Name
keys [] = []
keys ((f, fs) ∷ g) = f ∷ keys g

abbrev pub CallersDistinct : Graph → Type 0
CallersDistinct [] = Unit {0}
CallersDistinct ((f, fs) ∷ g) = Distinct fs × CallersDistinct g

-- A reversed call graph: each function once, with each caller once.
pub record IsGraph (g : Graph) : Type 0 where
  pub keys_once : Distinct (keys g)
  pub callers_once : CallersDistinct g
  pub small : length g < 2 ^ 64

-- How many callees of `f` are not in `past`.
unfoldable pub waits : Graph → (past : List Name) → Name → ℕ
waits [] past f = 0
waits ((c, fs) ∷ g) past f = (if has c past then 0 else if has f fs then 1 else 0) + waits g past f

pub waits-degree : (g : Graph) (f : Name) → waits g [] f ≡ degree f g
unfolding waits degree
waits-degree [] f = refl
waits-degree ((c, fs) ∷ g) f = omega (arith, waits-degree g f)

pub waits-length : (g : Graph) (past : List Name) (f : Name) → waits g past f ≤ length g
unfolding waits
waits-length [] past f = omega arith
waits-length ((c, fs) ∷ g) past f = ground (arith, waits-length g past f)

-- A function that nobody calls is not waited for.
waits-other :
    (g : Graph) (from : Name) (past : List Name) (f : Name)
    → has from (keys g) ≡ false
    → waits g (from ∷ past) f ≡ waits g past f
unfolding waits
waits-other [] from past f h = refl
waits-other ((c, fs) ∷ g) from past f h =
    let apart : (from == c) ≡ false = ne→== from c (λ t. absurd (cc (eq→== c from (sym t)))) in
    let later : has from (keys g) ≡ false = ground arith in
    rw (apart, waits-other g from past f later) refl

-- A function that is done is waited for by its callers no more.
pub waits-past :
    (g : Graph) (from : Name) (past : List Name) (f : Name)
    → Distinct (keys g)
    → has from past ≡ false
    → waits g (from ∷ past) f + (if has f (callers_of from g) then 1 else 0) ≡ waits g past f
unfolding waits callers_of
waits-past [] from past f d new = refl
waits-past ((c, fs) ∷ g) from past f (once, d) new = elim (Bool-cases (c == from)) [
  | inl here ↦
      let same : c ≡ from = ground arith in
      let rest = waits-other g from past f (ap (λ x. has x (keys g)) (sym same) ∙ once) in
      rw (same, new, eq→== from from refl, rest) (omega arith)
  | inr other ↦
      let apart : (from == c) ≡ false = ne→== from c (λ t. absurd (cc (eq→== c from (sym t)))) in
      rw (other, apart) (omega (arith, waits-past g from past f d new))
]

-- Who waits for nobody has only callees that are done.
pub waits-zero :
    (g : Graph) (past : List Name) (f c : Name)
    → waits g past f ≡ 0
    → has f (callers_of c g) ≡ true
    → has c past ≡ true
unfolding waits callers_of
waits-zero [] past f c h calls = absurd (cc calls)
waits-zero ((k, fs) ∷ g) past f c h calls = elim (Bool-cases (k == c)) [
  | inl here ↦
      let same : k ≡ c = ground arith in
      let direct : has f fs ≡ true = rw here at calls in
      elim (Bool-cases (has k past)) [
        | inl done ↦ ap (λ x. has x past) (sym same) ∙ done
        | inr open_call ↦ absurd (let e = rw (open_call, direct) at h in omega (arith, e))
      ]
  | inr other ↦ waits-zero g past f c (omega arith) (rw other at calls)
]
