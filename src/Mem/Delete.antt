-- ===== src/Mem/Delete.antt =====
-- csp_mem_tree_node_del_span of src/mem.c for a span whose free list has others: the list.
use shiyanhui_libcsp.Base.{
  ◌≡◌, ◌≢◌, refl, List, [], ◌∷◌, ◌++◌, some, arith, true, false, Bool-cases, inl, inr, head_or,
  last_of, last_of-has, ◌==◌, if◌then◌else◌, ◌&&◌, has,
}
use shiyanhui_libcsp.Rbtree
use shiyanhui_libcsp.Mem.{SpanPtr, null, Heap, span_by_index}
use shiyanhui_libcsp.Mem.Spans.{set_value, del_span, del_links}
use shiyanhui_libcsp.Mem.Lists.{Spans, Chain, IsFreeList, Loose}
use shiyanhui_libcsp.Mem.Unlink.{
  Chain-at, Chain-head, Chain-cut, del_links-Unlinked, del_links-first, last-Known, head-Known,
  Distinct-drop, last-ne, head-ne, last-ne-head, Chain-real,
}

-- The heap without the span `x`, which is between `pre` and `next`.
abbrev after : Heap → Rbtree.Ptr → (x pre next : SpanPtr) → Heap
after h node x pre next =
    let h1 = record h { spans = del_links x pre next h.spans } in
    if pre == null then set_value node next h1 else h1

del_span-after :
    (h : Heap) (node : Rbtree.Ptr) (x pre next : SpanPtr)
    → span_by_index (h.spans x).fp_pre ≡ pre
    → span_by_index (h.spans x).fp_next ≡ next
    → (pre == null && next == null) ≡ false
    → del_span node x h ≡ some (next, after h node x pre next)
unfolding del_span
del_span-after h node x pre next e1 e2 nz = rw (e1, e2, nz)

after-spans :
    (h : Heap) (node : Rbtree.Ptr) (x pre next : SpanPtr)
    → (after h node x pre next).spans ≡ del_links x pre next h.spans
unfolding set_value
after-spans h node x pre next = elim (Bool-cases (pre == null)) [
  | inl first ↦ rw first
  | inr behind ↦ rw behind
]

-- The node leads to the new first span.
after-value :
    (h : Heap) (node : Rbtree.Ptr) (x : SpanPtr) (fs bs : List SpanPtr)
    → ((b : SpanPtr) → has b fs ≡ true → b ≢ null)
    → (h.tree.nodes node).value ≡ head_or null (fs ++ x ∷ bs)
    → ((after h node x (last_of null fs) (head_or null bs)).tree.nodes node).value
      ≡ head_or null (fs ++ bs)
unfolding set_value
after-value h node x [] bs real v = let self : (node == node) ≡ true = ground arith in rw self
after-value h node x (f ∷ fs) bs real v =
    let behind : (last_of f fs == null) ≡ false =
      let last = real (last_of f fs) (last_of-has f f fs) in ground arith in
    rw behind v

head_none :
    (s : Spans) (pre p : SpanPtr) (xs : List SpanPtr)
    → Chain s pre p xs
    → head_or null xs ≡ null
    → xs ≡ []
head_none s pre p [] c e = refl
head_none s pre p (x ∷ xs) c e = absurd (c.1.0 e)

null_out :
    (s : Spans) (pre p : SpanPtr) (xs : List SpanPtr) → Chain s pre p xs → has null xs ≡ false
null_out s pre p [] c = refl
null_out s pre p (x ∷ xs) c =
    let rest = null_out s x (span_by_index (s x).fp_next) xs c.3 in let real = c.1.0 in ground arith

neighbour :
    (fs bs : List SpanPtr)
    → ((b : SpanPtr) → has b fs ≡ true → b ≢ null)
    → (head_or null bs ≡ null → bs ≡ [])
    → fs ++ bs ≢ []
    → (last_of null fs == null && head_or null bs == null) ≡ false
neighbour [] bs real first n = elim (Bool-cases (head_or null bs == null)) [
  | inl none_there ↦ absurd (n (first (ground arith)))
  | inr there ↦ there
]
neighbour (f ∷ fs) bs real first n =
    let last = real (last_of f fs) (last_of-has f f fs) in ground arith

-- `csp_mem_tree_node_del_span` on a span of the free list of a node, with others in the list, takes
-- exactly this span out: it gives the span behind, or NULL, the others stay listed in their order,
-- linked both ways, and the span can be put on a list again.
pub del_span-cut :
    (h : Heap) (node : Rbtree.Ptr) (x : SpanPtr) (fs bs : List SpanPtr)
    → IsFreeList h node (fs ++ x ∷ bs)
    → fs ++ bs ≢ []
    → (g : Heap) × (del_span node x h ≡ some (head_or null bs, g))
      × IsFreeList g node (fs ++ bs)
      × Loose g (fs ++ bs) x
del_span-cut h node x fs bs v n =
    let s = h.spans in
    let p = (h.tree.nodes node).value in
    let pre = last_of null fs in
    let next = head_or null bs in
    let (known, back, rest) = Chain-at s null p x fs bs v.chain in
    let ahead = Chain-head s x (span_by_index (s x).fp_next) bs rest in
    let real = Chain-real s null p x fs bs v.chain in
    let nz : (pre == null && next == null) ≡ false =
      neighbour fs bs real (head_none s x (span_by_index (s x).fp_next) bs rest) n in
    let xp = last-ne x null fs bs known.0 v.distinct in
    let xn = head-ne x fs bs known.0 v.distinct in
    let u =
      del_links-Unlinked s x pre next (last-Known s null p x fs bs v.chain (λ k. absurd (k refl)))
        (head-Known s x (span_by_index (s x).fp_next) bs rest) xp xn
        (last-ne-head x null fs bs (λ k. absurd (k refl)) real v.distinct) nz in
    let (distinct, absent) = Distinct-drop x fs bs v.distinct in
    let g = after h node x pre next in
    (
      g,
      del_span-after h node x pre next back ahead nz,
      record {
        chain =
            rw
              (
                after-spans h node x pre next,
                after-value h node x fs bs real (Chain-head s null p (fs ++ x ∷ bs) v.chain),
              )
              (Chain-cut s (del_links x pre next s) null p x fs bs u
                (null_out s null p (fs ++ x ∷ bs) v.chain) v.distinct v.chain);
        distinct = distinct;
      },
      record {
        known = (known.0, rw (after-spans h node x pre next, u.index x) known.1);
        absent = absent;
        first = rw (after-spans h node x pre next) (del_links-first s x pre next back xp xn nz);
      },
    )
