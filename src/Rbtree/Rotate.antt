-- ===== src/Rbtree/Rotate.antt =====
-- The rotations of src/rbtree.h keep a search tree.
use shiyanhui_libcsp.Base.{◌<◌, ◌≡◌, ◌≢◌, inl, inr, refl, arith, ap, sym}
use shiyanhui_libcsp.Rbtree.{Ptr, Nodes, rotate_left, rotate_right, set_left, set_right, set_father}
use shiyanhui_libcsp.Rbtree.Shape.{Shape, leaf, node, In, Spans, IsSearch}

-- The children of a node are the same on two stores.
abbrev SameSons : Nodes → Nodes → Ptr → Type 0
SameSons s g a = ((g a).left ≡ (s a).left) × ((g a).right ≡ (s a).right)

Spans-frame :
    (s g : Nodes) (sentry p : Ptr) (sh : Shape)
    → ((a : Ptr) → In a sh → SameSons s g a)
    → Spans s sentry p sh
    → Spans g sentry p sh
Spans-frame s g sentry p leaf same w = w
Spans-frame s g sentry p (node q l r) same (e, n, wl, wr) =
    let (left, right) = same q (inl refl) in
    (
      e,
      n,
      rw left (Spans-frame s g sentry (s q).left l (λ a i. same a (inr (inl i))) wl),
      rw right (Spans-frame s g sentry (s q).right r (λ a i. same a (inr (inr i))) wr),
    )

-- What a rotation of `p` under `q` does to the fields that the order depends on.
record Turned (s g : Nodes) (p q p_left p_right q_left q_right : Ptr) : Type 0 where
  key : (a : Ptr) → (g a).key ≡ (s a).key
  p_left_is : (g p).left ≡ p_left
  p_right_is : (g p).right ≡ p_right
  q_left_is : (g q).left ≡ q_left
  q_right_is : (g q).right ≡ q_right
  others : (a : Ptr) → a ≢ p → a ≢ q → SameSons s g a

rotate_left-Turned :
    (s : Nodes) (p q : Ptr)
    → (s p).right ≡ q
    → p ≢ q
    → Turned s (rotate_left p s).1 p q (s p).left (s q).left p (s q).right
unfolding rotate_left set_left set_right set_father
rotate_left-Turned s p q e n = record {
  key = λ a. ground arith;
  p_left_is = ground arith;
  p_right_is = ground arith;
  q_left_is = ground arith;
  q_right_is = ground arith;
  others = λ a m k. (ground arith, ground arith);
}

rotate_right-Turned :
    (s : Nodes) (p q : Ptr)
    → (s p).left ≡ q
    → p ≢ q
    → Turned s (rotate_right p s).1 p q (s q).right (s p).right (s q).left p
unfolding rotate_right set_left set_right set_father
rotate_right-Turned s p q e n = record {
  key = λ a. ground arith;
  p_left_is = ground arith;
  p_right_is = ground arith;
  q_left_is = ground arith;
  q_right_is = ground arith;
  others = λ a m k. (ground arith, ground arith);
}

IsSearch-frame :
    (s g : Nodes) (sh : Shape) → ((a : Ptr) → (g a).key ≡ (s a).key) → IsSearch s sh → IsSearch g sh
IsSearch-frame s g leaf same v = v
IsSearch-frame s g (node q l r) same (below, above, vl, vr) = (
  (λ a i. omega (arith, same a, same q, below a i)),
  (λ a i. omega (arith, same a, same q, above a i)),
  IsSearch-frame s g l same vl,
  IsSearch-frame s g r same vr,
)

-- The two shapes of a rotation have the same order.
IsSearch-left :
    (s : Nodes) (p q : Ptr) (a b c : Shape)
    → IsSearch s (node p a (node q b c))
    → IsSearch s (node q (node p a b) c)
IsSearch-left s p q a b c (below, above, va, (bq, cq, vb, vc)) =
    let pq = above q (inl refl) in
    (
      (λ x m. elim m [
        | inl same ↦ ground (arith, ap (λ n. (s n).key) same)
        | inr (inl i) ↦ omega (arith, below x i)
        | inr (inr i) ↦ bq x i
      ]),
      cq,
      (below, (λ x i. above x (inr (inl i))), va, vb),
      vc,
    )

IsSearch-right :
    (s : Nodes) (p q : Ptr) (a b c : Shape)
    → IsSearch s (node p (node q a b) c)
    → IsSearch s (node q a (node p b c))
IsSearch-right s p q a b c (below, above, (aq, bq, va, vb), vc) =
    let qp = below q (inl refl) in
    (
      aq,
      (λ x m. elim m [
        | inl same ↦ ground (arith, ap (λ n. (s n).key) same)
        | inr (inl i) ↦ bq x i
        | inr (inr i) ↦ omega (arith, above x i)
      ]),
      va,
      ((λ x i. below x (inr (inr i))), above, vb, vc),
    )

-- Nodes of different keys are different.
ne_key : (s : Nodes) (a b : Ptr) → (s a).key < (s b).key → a ≢ b
ne_key s a b h = λ e. let same = ap (λ n. (s n).key) e in omega arith

apart :
    (s g : Nodes) (p q pl pr ql qr x : Ptr)
    → Turned s g p q pl pr ql qr
    → (s x).key ≢ (s p).key
    → (s x).key ≢ (s q).key
    → SameSons s g x
apart s g p q pl pr ql qr x t np nq =
    t.others x (λ e. np (ap (λ n. (s n).key) e)) (λ e. nq (ap (λ n. (s n).key) e))

left-Spans :
    (s g : Nodes) (sentry p q : Ptr) (a b c : Shape)
    → Turned s g p q (s p).left (s q).left p (s q).right
    → Spans s sentry p (node p a (node q b c))
    → IsSearch s (node p a (node q b c))
    → Spans g sentry q (node q (node p a b) c)
left-Spans s g sentry p q a b c t (e, n, wa, (eq, nq, wb, wc))
      (below, above, va, (bq, cq, vb, vc)) =
    let pq = above q (inl refl) in
    let same : (x : Ptr) → (s x).key ≢ (s p).key → (s x).key ≢ (s q).key → SameSons s g x =
      λ x. apart s g p q (s p).left (s q).left p (s q).right x t in
    let wa' =
      Spans-frame s g sentry (s p).left a
        (λ x i. let h = below x i in same x (λ k. omega arith) (λ k. omega arith)) wa in
    let wb' =
      Spans-frame s g sentry (s q).left b
        (λ x i.
          let h = bq x i in
          let h' = above x (inr (inl i)) in same x (λ k. omega arith) (λ k. omega arith))
        wb in
    let wc' =
      Spans-frame s g sentry (s q).right c
        (λ x i. let h = cq x i in same x (λ k. omega arith) (λ k. omega arith)) wc in
    (refl, nq, (t.q_left_is, n, rw t.p_left_is wa', rw t.p_right_is wb'), rw t.q_right_is wc')

right-Spans :
    (s g : Nodes) (sentry p q : Ptr) (a b c : Shape)
    → Turned s g p q (s q).right (s p).right (s q).left p
    → Spans s sentry p (node p (node q a b) c)
    → IsSearch s (node p (node q a b) c)
    → Spans g sentry q (node q a (node p b c))
right-Spans s g sentry p q a b c t (e, n, (eq, nq, wa, wb), wc)
      (below, above, (aq, bq, va, vb), vc) =
    let qp = below q (inl refl) in
    let same : (x : Ptr) → (s x).key ≢ (s p).key → (s x).key ≢ (s q).key → SameSons s g x =
      λ x. apart s g p q (s q).right (s p).right (s q).left p x t in
    let wa' =
      Spans-frame s g sentry (s q).left a
        (λ x i. let h = aq x i in same x (λ k. omega arith) (λ k. omega arith)) wa in
    let wb' =
      Spans-frame s g sentry (s q).right b
        (λ x i.
          let h = bq x i in
          let h' = below x (inr (inr i)) in same x (λ k. omega arith) (λ k. omega arith))
        wb in
    let wc' =
      Spans-frame s g sentry (s p).right c
        (λ x i. let h = above x i in same x (λ k. omega arith) (λ k. omega arith)) wc in
    (refl, nq, rw t.q_left_is wa', (t.q_right_is, n, rw t.p_left_is wb', rw t.p_right_is wc'))

-- `csp_rbtree_node_rotate_left` of the root `p` of a search tree, whose right child is `q`: `q` is the
-- new root, with `p` as its left child and the three subtrees in their order, and the tree is a search
-- tree.
pub rotate_left-IsSearch :
    (s : Nodes) (sentry p q : Ptr) (a b c : Shape)
    → Spans s sentry p (node p a (node q b c))
    → IsSearch s (node p a (node q b c))
    → ((rotate_left p s).0 ≡ q)
      × Spans (rotate_left p s).1 sentry q (node q (node p a b) c)
      × IsSearch (rotate_left p s).1 (node q (node p a b) c)
unfolding rotate_left
rotate_left-IsSearch s sentry p q a b c w v =
    let right = w.3.0 in
    let t = rotate_left-Turned s p q right (ne_key s p q (v.1 q (inl refl))) in
    let g = (rotate_left p s).1 in
    (
      right,
      left-Spans s g sentry p q a b c t w v,
      IsSearch-frame s g (node q (node p a b) c) t.key (IsSearch-left s p q a b c v),
    )

-- `csp_rbtree_node_rotate_right` of the root `p` of a search tree, whose left child is `q`: `q` is the
-- new root, with `p` as its right child and the three subtrees in their order, and the tree is a search
-- tree.
pub rotate_right-IsSearch :
    (s : Nodes) (sentry p q : Ptr) (a b c : Shape)
    → Spans s sentry p (node p (node q a b) c)
    → IsSearch s (node p (node q a b) c)
    → ((rotate_right p s).0 ≡ q)
      × Spans (rotate_right p s).1 sentry q (node q a (node p b c))
      × IsSearch (rotate_right p s).1 (node q a (node p b c))
unfolding rotate_right
rotate_right-IsSearch s sentry p q a b c w v =
    let left = w.2.0 in
    let t = rotate_right-Turned s p q left (λ e. ne_key s q p (v.0 q (inl refl)) (sym e)) in
    let g = (rotate_right p s).1 in
    (
      left,
      right-Spans s g sentry p q a b c t w v,
      IsSearch-frame s g (node q a (node p b c)) t.key (IsSearch-right s p q a b c v),
    )

-- `csp_rbtree_node_rotate_left` of the root `p` of a search tree, whose right child is `q`, keeps a
-- search tree with the same subtrees in their order and `q` as its root, and
-- `csp_rbtree_node_rotate_right` of `q` then makes the tree of before.
rotate_right-rotate_left :
    (s : Nodes) (sentry p q : Ptr) (a b c : Shape)
    → Spans s sentry p (node p a (node q b c))
    → IsSearch s (node p a (node q b c))
    → let s1 = (rotate_left p s).1 in
      let s2 = (rotate_right q s1).1 in
      ((rotate_left p s).0 ≡ q)
      × (Spans s1 sentry q (node q (node p a b) c) × IsSearch s1 (node q (node p a b) c))
      × ((rotate_right q s1).0 ≡ p)
      × (Spans s2 sentry p (node p a (node q b c)) × IsSearch s2 (node p a (node q b c)))
rotate_right-rotate_left s sentry p q a b c w v =
    let (top, spans, search) = rotate_left-IsSearch s sentry p q a b c w v in
    let (top2, spans2, search2) =
      rotate_right-IsSearch (rotate_left p s).1 sentry q p a b c spans search in
    (top, (spans, search), top2, (spans2, search2))
