-- ===== src/Analyzer/Nodes.antt =====
-- The functions of a reversed call graph of plugin/sa.hpp, and how many of them are left.
use shiyanhui_libcsp.Base.{
  ℕ, suc, ◌+◌, ◌≤◌, ◌<◌, ◌≡◌, refl, sym, ap, ◌∙◌, inl, inr, true, false, ◌||◌, Bool-cases, ◌==◌,
  if◌then◌else◌, List, [], ◌∷◌, ◌++◌, arith, eq→==, ne→==, has, has-append, Distinct, length,
}
use shiyanhui_libcsp.Analyzer.{Name, Graph, degree, callers_of}
use shiyanhui_libcsp.Analyzer.Waits.{keys, waits}

-- Each function that is called and each that calls.
abbrev pub nodes : Graph → List Name
nodes [] = []
nodes ((f, fs) ∷ g) = f ∷ (fs ++ nodes g)

pub keys-nodes : (g : Graph) (f : Name) → has f (keys g) ≡ true → has f (nodes g) ≡ true
keys-nodes [] f i = absurd (cc i)
keys-nodes ((c, fs) ∷ g) f i = elim (Bool-cases (c == f)) [
  | inl here ↦ rw here refl
  | inr other ↦
      let deep = keys-nodes g f (rw other at i) in
      rw (other, has-append f fs (nodes g), deep) (ground arith)
]

-- Who calls something calls a key.
pub callers-keys : (g : Graph) (c f : Name) → has f (callers_of c g) ≡ true → has c (keys g) ≡ true
unfolding callers_of
callers-keys [] c f i = absurd (cc i)
callers-keys ((k, fs) ∷ g) c f i = elim (Bool-cases (k == c)) [
  | inl here ↦ rw here refl
  | inr other ↦ rw other (callers-keys g c f (rw other at i))
]

pub callers-nodes :
    (g : Graph) (c f : Name) → has f (callers_of c g) ≡ true → has f (nodes g) ≡ true
unfolding callers_of
callers-nodes [] c f i = absurd (cc i)
callers-nodes ((k, fs) ∷ g) c f i = elim (Bool-cases (k == c)) [
  | inl here ↦
      let direct : has f fs ≡ true = rw here at i in
      rw (has-append f fs (nodes g), direct) (ground arith)
  | inr other ↦
      let deep = callers-nodes g c f (rw other at i) in
      rw (has-append f fs (nodes g), deep) (ground arith)
]

-- Who waits waits for a callee that is not done.
pub waits-some :
    (g : Graph) (past : List Name) (f : Name)
    → Distinct (keys g)
    → 0 < waits g past f
    → (c : Name) × (has f (callers_of c g) ≡ true) × (has c past ≡ false)
unfolding waits callers_of
waits-some [] past f d h = absurd (omega arith)
waits-some ((k, fs) ∷ g) past f (once, d) h =
    let deep : 0 < waits g past f
        → (c : Name) × (has f (callers_of c ((k, fs) ∷ g)) ≡ true) × (has c past ≡ false) =
      λ p.
        let (c, calls, undone) = waits-some g past f d p in
        let apart : (k == c) ≡ false = ne→== k c (λ t.
          absurd
            (let key = ap (λ x. has x (keys g)) t ∙ callers-keys g c f calls in cc (key, once))) in
        (c, rw (callers_of, apart) calls, undone) in
    elim (Bool-cases (has k past)) [
      | inl done ↦ deep (let e = rw done at h in omega (arith, e))
      | inr open_call ↦ elim (Bool-cases (has f fs)) [
        | inl direct ↦ (k, rw (callers_of, eq→== k k refl) direct, open_call)
        | inr none_here ↦ deep (let e = rw (open_call, none_here) at h in omega (arith, e))
      ]
    ]

-- Who calls nothing is a key.
pub nodes-keys :
    (g : Graph) (f : Name) → has f (nodes g) ≡ true → degree f g ≡ 0 → has f (keys g) ≡ true
unfolding degree
nodes-keys [] f i z = absurd (cc i)
nodes-keys ((c, fs) ∷ g) f i z = elim (Bool-cases (has f fs)) [
  | inl calls ↦ absurd (let e = rw calls at z in omega (arith, e))
  | inr none_here ↦
      let deep = nodes-keys g f in
      let split = has-append f fs (nodes g) in
      elim (Bool-cases (c == f)) [
        | inl here ↦ rw here refl
        | inr other ↦ rw other (
            deep (sym (ap (λ b. b || has f (nodes g)) none_here) ∙ sym split ∙ (rw other at i))
              (omega arith))
      ]
]

-- How many of a list are not done.
abbrev pub left : (past : List Name) → List Name → ℕ
left past [] = 0
left past (x ∷ xs) = (if has x past then 0 else 1) + left past xs

left-le : (past : List Name) (f : Name) (xs : List Name) → left (f ∷ past) xs ≤ left past xs
left-le past f [] = omega arith
left-le past f (x ∷ xs) = ground (arith, left-le past f xs)

pub left-lt :
    (past : List Name) (f : Name) (xs : List Name)
    → has f xs ≡ true
    → has f past ≡ false
    → left (f ∷ past) xs < left past xs
left-lt past f [] i new = absurd (cc i)
left-lt past f (x ∷ xs) i new = elim (Bool-cases (x == f)) [
  | inl here ↦
      let same : x ≡ f = ground arith in
      let out : has x past ≡ false = ap (λ y. has y past) same ∙ new in
      rw (out, eq→== f x (sym same)) (omega (arith, left-le past f xs))
  | inr other ↦
      let less = left-lt past f xs (rw other at i) new in
      rw (ne→== f x (λ t. absurd (cc (eq→== x f (sym t))))) (omega (arith, less))
]

pub left-zero :
    (past : List Name) (f : Name) (xs : List Name)
    → has f xs ≡ true
    → left past xs ≡ 0
    → has f past ≡ true
left-zero past f [] i none_left = absurd (cc i)
left-zero past f (x ∷ xs) i none_left = elim (Bool-cases (has x past)) [
  | inl done ↦ elim (Bool-cases (x == f)) [
    | inl here ↦ (let same : x ≡ f = ground arith in ap (λ y. has y past) (sym same) ∙ done)
    | inr other ↦
        left-zero past f xs (rw other at i) (let e = rw done at none_left in omega (arith, e))
  ]
  | inr undone ↦ absurd (let e = rw undone at none_left in omega (arith, e))
]

pub left-nil : (xs : List Name) → left [] xs ≡ length xs
left-nil [] = refl
left-nil (x ∷ xs) = omega (arith, left-nil xs)

-- A list without repetition is no longer than one that has all of it.
pub left-room :
    (xs us : List Name)
    → Distinct xs
    → ((f : Name) → has f xs ≡ true → has f us ≡ true)
    → length xs + left xs us ≤ length us
left-room [] us d all = omega (arith, left-nil us)
left-room (x ∷ xs) us (new, d) all =
    let rest = left-room xs us d (λ f i. all f (ground arith)) in
    let less = left-lt xs x us (all x (rw (eq→== x x refl) refl)) new in omega (arith, rest, less)

pub left-length : (past xs : List Name) → left past xs ≤ length xs
left-length past [] = omega arith
left-length past (x ∷ xs) = ground (arith, left-length past xs)

pub length-keys : (g : Graph) → length (keys g) ≡ length g
length-keys [] = refl
length-keys ((f, fs) ∷ g) = ap suc (length-keys g)
