-- ===== src/Analyzer/Edges.antt =====
-- An edge more in the reversed call graph of plugin/sa.hpp.
use shiyanhui_libcsp.Base.{
  ℕ, ◌+◌, ◌≤◌, ◌<◌, ◌≡◌, refl, sym, ap, ◌∙◌, inl, inr, true, false, ◌&&◌, ◌||◌, Bool-cases, ◌==◌,
  ltb, List, [], ◌∷◌, arith, eq→==, ne→==, has, has-append, Distinct,
}
use shiyanhui_libcsp.Analyzer.{Name, Graph, callers_of, insert_name, insert_edge}
use shiyanhui_libcsp.Analyzer.Waits.{keys, CallersDistinct}
use shiyanhui_libcsp.Analyzer.Nodes.{nodes}

-- A set as std::set keeps it: in order, from `lo` on.
abbrev pub AscendingFrom : (lo : ℕ) → List Name → Type 0
AscendingFrom lo [] = Unit {0}
AscendingFrom lo (x ∷ xs) = (lo ≤ x) × AscendingFrom (x + 1) xs

pub AscendingFrom-below :
    (lo : ℕ) (xs : List Name) (f : Name) → AscendingFrom lo xs → f < lo → has f xs ≡ false
AscendingFrom-below lo [] f a h = refl
AscendingFrom-below lo (x ∷ xs) f (le, a) h =
    rw
      (ne→== x f (λ t. absurd (omega (arith, t))), AscendingFrom-below (x + 1) xs f a (omega arith))
      refl

AscendingFrom-Distinct : (lo : ℕ) (xs : List Name) → AscendingFrom lo xs → Distinct xs
AscendingFrom-Distinct lo [] a = tt
AscendingFrom-Distinct lo (x ∷ xs) (le, a) =
    (AscendingFrom-below (x + 1) xs x a (omega arith), AscendingFrom-Distinct (x + 1) xs a)

insert_name-AscendingFrom :
    (lo : ℕ) (x : Name) (xs : List Name)
    → lo ≤ x
    → AscendingFrom lo xs
    → AscendingFrom lo (insert_name x xs)
unfolding insert_name
insert_name-AscendingFrom lo x [] le a = (le, tt)
insert_name-AscendingFrom lo x (y ∷ ys) le (first, a) = elim (Bool-cases (x == y)) [
  | inl same ↦ rw same (first, a)
  | inr other ↦ elim (Bool-cases (ltb x y)) [
    | inl before ↦ rw (other, before) (le, (ground arith, a))
    | inr behind ↦
        rw (other, behind) (first, insert_name-AscendingFrom (y + 1) x ys (ground arith) a)
  ]
]

pub insert_name-has :
    (x : Name) (xs : List Name) (f : Name) → has f (insert_name x xs) ≡ ((x == f) || has f xs)
unfolding insert_name
insert_name-has x [] f = refl
insert_name-has x (y ∷ ys) f = elim (Bool-cases (x == y)) [
  | inl same ↦ (let t : x ≡ y = ground arith in rw same (rw t (ground arith)))
  | inr other ↦ elim (Bool-cases (ltb x y)) [
    | inl before ↦ rw (other, before) refl
    | inr behind ↦ rw (other, behind, insert_name-has x ys f) (ground arith)
  ]
]

-- Each set of callers is in order.
abbrev pub CallersAscending : Graph → Type 0
CallersAscending [] = Unit {0}
CallersAscending ((f, fs) ∷ g) = AscendingFrom 0 fs × CallersAscending g

pub CallersAscending-Distinct : (g : Graph) → CallersAscending g → CallersDistinct g
CallersAscending-Distinct [] a = tt
CallersAscending-Distinct ((f, fs) ∷ g) (here, a) =
    (AscendingFrom-Distinct 0 fs here, CallersAscending-Distinct g a)

module _ (callee caller : Name) where
  pub insert_edge-keys :
      (g : Graph) (f : Name)
      → has f (keys (insert_edge callee caller g)) ≡ ((callee == f) || has f (keys g))
  unfolding insert_edge
  insert_edge-keys [] f = refl
  insert_edge-keys ((c, fs) ∷ g) f = elim (Bool-cases (c == callee)) [
    | inl same ↦ (let t : c ≡ callee = ground arith in rw same (rw t (ground arith)))
    | inr other ↦ rw (other, insert_edge-keys g f) (ground arith)
  ]

  pub insert_edge-nodes :
      (g : Graph) (f : Name)
      → has f (nodes (insert_edge callee caller g)) ≡ true
      → ((callee == f) || (caller == f) || has f (nodes g)) ≡ true
  unfolding insert_edge
  insert_edge-nodes [] f i = ground arith
  insert_edge-nodes ((c, fs) ∷ g) f i = elim (Bool-cases (c == callee)) [
    | inl same ↦
        let at = rw same at i in
        rw (has-append f fs (nodes g)) (
          ground (
            arith,
            has-append f (insert_name caller fs) (nodes g),
            insert_name-has caller fs f,
            at,
          ))
    | inr other ↦
        let at = rw other at i in
        let deep = insert_edge-nodes g f in
        rw (has-append f fs (nodes g))
          (ground (arith, has-append f fs (nodes (insert_edge callee caller g)), deep, at))
  ]

  pub insert_edge-callers :
      (g : Graph) (c f : Name)
      → has f (callers_of c (insert_edge callee caller g))
        ≡ (((callee == c) && (caller == f)) || has f (callers_of c g))
  unfolding insert_edge callers_of
  insert_edge-callers [] c f = elim (Bool-cases (callee == c)) [
    | inl here ↦ rw here (ground arith)
    | inr there ↦ rw there refl
  ]
  insert_edge-callers ((k, fs) ∷ g) c f = elim (Bool-cases (k == callee)) [
    | inl same ↦
        let t : k ≡ callee = ground arith in
        let first : (k == c) ≡ (callee == c) = ap (λ x. x == c) t in
        elim (Bool-cases (callee == c)) [
          | inl here ↦ rw (same, first, here, insert_name-has caller fs f) refl
          | inr there ↦ rw (same, first, there) refl
        ]
    | inr other ↦ elim (Bool-cases (k == c)) [
      | inl here ↦
          let t : k ≡ c = ground arith in
          let apart : (callee == c) ≡ false =
            ne→== callee c (λ u. absurd (cc (eq→== k callee (t ∙ sym u), other))) in
          rw (other, here, apart) refl
      | inr there ↦ rw (other, there) (insert_edge-callers g c f)
    ]
  ]

  pub insert_edge-Distinct :
      (g : Graph) → Distinct (keys g) → Distinct (keys (insert_edge callee caller g))
  unfolding insert_edge
  insert_edge-Distinct [] d = (refl, tt)
  insert_edge-Distinct ((c, fs) ∷ g) (new, d) = elim (Bool-cases (c == callee)) [
    | inl same ↦ rw same (new, d)
    | inr other ↦
        let apart : (callee == c) ≡ false =
          ne→== callee c (λ u. absurd (cc (eq→== c callee (sym u), other))) in
        rw other (insert_edge-keys g c ∙ rw (apart, new) refl, insert_edge-Distinct g d)
  ]

  pub insert_edge-CallersAscending :
      (g : Graph) → CallersAscending g → CallersAscending (insert_edge callee caller g)
  unfolding insert_edge
  insert_edge-CallersAscending [] a = ((omega arith, tt), tt)
  insert_edge-CallersAscending ((c, fs) ∷ g) (here, a) = elim (Bool-cases (c == callee)) [
    | inl same ↦ rw same (insert_name-AscendingFrom 0 caller fs (omega arith) here, a)
    | inr other ↦ rw other (here, insert_edge-CallersAscending g a)
  ]
