-- ===== src/Rbtree/Walk.antt =====
-- csp_rbtree_all_nodes of src/rbtree.h: the walk with an explicit stack.
use shiyanhui_libcsp.Base.{
  ℕ, suc, ◌+◌, ◌*◌, ◌≡◌, ◌≢◌, List, [], ◌∷◌, ◌++◌, arith, append_assoc, append-nil, sym, ◌==◌, true,
  false, none, some, Bool-cases, ltb→lt, Option-cases, inl, inr, ◌>>=◌, ltb, lt→ltb, if◌then◌else◌,
  ◌-◌, ◌<◌, ◌≤◌, refl, ap,
}
use shiyanhui_libcsp.Rbtree.{Ptr, Nodes, Tree, walk, all_nodes}
use shiyanhui_libcsp.Rbtree.Shape.{Shape, leaf, node, size, in_order, Spans, IsTree}

-- The fuel that a tree takes, with `k` left behind it.
abbrev steps : Shape → ℕ → ℕ
steps leaf k = k
steps (node p l r) k = suc (steps l (suc (steps r k)))

steps_eq : (sh : Shape) (k : ℕ) → steps sh k ≡ 2 * size sh + k
steps_eq leaf k = omega arith
steps_eq (node p l r) k = omega (arith, steps_eq l (suc (steps r k)), steps_eq r k)

-- The most nodes of a subtree that are on the stack at once.
abbrev pub stacked : Shape → ℕ
stacked leaf = 0
stacked (node p l r) = if ltb (stacked r) (1 + stacked l) then 1 + stacked l else stacked r

walk-down :
    (fuel : ℕ) (s : Nodes) (sentry : Ptr) (n : ℕ) (stack : List Ptr) (p : Ptr)
    → p ≢ sentry
    → n < 128
    → walk (suc fuel) s sentry n stack p ≡ walk fuel s sentry (n + 1) (p ∷ stack) (s p).left
unfolding walk
walk-down fuel s sentry n [] p ne room =
    let test : (p == sentry) ≡ false = ground arith in rw (test, lt→ltb n 128 room) refl
walk-down fuel s sentry n (x ∷ stack) p ne room =
    let test : (p == sentry) ≡ false = ground arith in rw (test, lt→ltb n 128 room) refl

walk-up :
    (fuel : ℕ) (s : Nodes) (sentry : Ptr) (n : ℕ) (x : Ptr) (stack : List Ptr)
    → walk (suc fuel) s sentry (n + 1) (x ∷ stack) sentry
      ≡ (walk fuel s sentry n stack (s x).right >>= λ ps. some (x ∷ ps))
unfolding walk
walk-up fuel s sentry n x stack =
    let test : (sentry == sentry) ≡ true = ground arith in
    let back : n + 1 - 1 ≡ n = omega arith in rw (test, back) refl

walk-done : (s : Nodes) (sentry : Ptr) → walk 1 s sentry 0 [] sentry ≡ some []
unfolding walk
walk-done s sentry = let test : (sentry == sentry) ≡ true = ground arith in rw test refl

-- A subtree that fits on the stack is listed before the stack that was there.
walk-in_order :
    (s : Nodes) (sentry : Ptr) (sh : Shape) (k n : ℕ) (stack : List Ptr) (p : Ptr)
    → Spans s sentry p sh
    → n + stacked sh ≤ 128
    → walk (steps sh k) s sentry n stack p
      ≡ (walk k s sentry n stack sentry >>= λ ps. some (in_order sh ++ ps))
walk-in_order s sentry leaf k n stack p e fits =
    rw e (elim (Option-cases (walk k s sentry n stack sentry)) [
      | inl o ↦ rw o refl
      | inr (ps, o) ↦ rw o refl
    ])
walk-in_order s sentry (node q l r) k n stack p (e, ne, wl, wr) fits =
    let more : (n + 1) + stacked l ≤ 128 = ground arith in
    let same : n + stacked r ≤ 128 = ground arith in
    let down = walk-down (steps l (suc (steps r k))) s sentry n stack q ne (omega arith) in
    let left = walk-in_order s sentry l (suc (steps r k)) (n + 1) (q ∷ stack) (s q).left wl more in
    let up = walk-up (steps r k) s sentry n q stack in
    let right = walk-in_order s sentry r k n stack (s q).right wr same in
    rw (e, down, left, up, right)
      (elim (Option-cases (walk k s sentry n stack sentry)) [
        | inl o ↦ rw o refl
        | inr (ps, o) ↦ rw o (ap some (sym (append_assoc (in_order l) (q ∷ in_order r) ps)))
      ])

walk-full :
    (fuel : ℕ) (s : Nodes) (sentry : Ptr) (stack : List Ptr) (p : Ptr)
    → p ≢ sentry
    → walk (suc fuel) s sentry 128 stack p ≡ none
unfolding walk
walk-full fuel s sentry [] p ne = let test : (p == sentry) ≡ false = ground arith in rw test refl
walk-full fuel s sentry (x ∷ stack) p ne =
    let test : (p == sentry) ≡ false = ground arith in rw test refl

-- A subtree that does not fit.
walk-overflow :
    (s : Nodes) (sentry : Ptr) (sh : Shape) (k n : ℕ) (stack : List Ptr) (p : Ptr)
    → Spans s sentry p sh
    → n ≤ 128
    → 128 < n + stacked sh
    → walk (steps sh k) s sentry n stack p ≡ none
walk-overflow s sentry leaf k n stack p e below over = absurd (omega arith)
walk-overflow s sentry (node q l r) k n stack p (e, ne, wl, wr) below over =
    elim (Bool-cases (ltb n 128)) [
      | inr full ↦
          let last : n ≡ 128 = ground arith in
          rw (e, last) (walk-full (steps l (suc (steps r k))) s sentry stack q ne)
      | inl room ↦
          let down =
            walk-down (steps l (suc (steps r k))) s sentry n stack q ne (ltb→lt n 128 room) in
          elim (Bool-cases (ltb 128 ((n + 1) + stacked l))) [
            | inl deep ↦
                rw (e, down)
                  (walk-overflow s sentry l (suc (steps r k)) (n + 1) (q ∷ stack) (s q).left wl
                    (ground arith) (ltb→lt 128 _ deep))
            | inr fits ↦
                let left =
                  walk-in_order s sentry l (suc (steps r k)) (n + 1) (q ∷ stack) (s q).left wl
                    (ground arith) in
                let up = walk-up (steps r k) s sentry n q stack in
                let right =
                  walk-overflow s sentry r k n stack (s q).right wr below (ground arith) in
                rw (e, down, left, up, right) refl
          ]
    ]

-- `csp_rbtree_all_nodes` lists all nodes of a search tree in the order of their keys, if no more than
-- 128 of them have to be on the stack at once; otherwise it writes behind the array `stack`.
pub all_nodes-in_order :
    (t : Tree) (sh : Shape)
    → IsTree t sh
    → all_nodes t ≡ (if ltb 128 (stacked sh) then none else some (in_order sh))
unfolding all_nodes
all_nodes-in_order t leaf v = ground (arith, v.counted)
all_nodes-in_order t (node q l r) v =
    let some_nodes : (t.nnodes == 0) ≡ false = ground (arith, v.counted) in
    let fuel : 2 * t.nnodes + 1 ≡ steps (node q l r) 1 =
      omega (arith, v.counted, steps_eq (node q l r) 1) in
    elim (Bool-cases (ltb 128 (stacked (node q l r)))) [
      | inl deep ↦
          rw (some_nodes, fuel, deep)
            (walk-overflow t.nodes t.sentry (node q l r) 1 0 [] t.root v.spans (omega arith)
              (omega (arith, ltb→lt 128 _ deep)))
      | inr fits ↦
          let low : 0 + stacked (node q l r) ≤ 128 = ground arith in
          let walked = walk-in_order t.nodes t.sentry (node q l r) 1 0 [] t.root v.spans low in
          rw (some_nodes, fuel, fits, walked, walk-done t.nodes t.sentry)
            (ap some (append-nil (in_order (node q l r))))
    ]
