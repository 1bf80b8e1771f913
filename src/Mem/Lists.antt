-- ===== src/Mem/Lists.antt =====
-- The free list of spans at a node of the tree in src/mem.c: csp_mem_tree_node_put_span and
-- csp_mem_tree_node_del_span.
use shiyanhui_libcsp.Base.{
  ◌<◌, ◌≡◌, ◌≢◌, refl, List, [], ◌∷◌, some, arith, true, false, has, Distinct, update, ◌==◌, ltb,
}
use shiyanhui_libcsp.Rbtree
use shiyanhui_libcsp.Mem.{SpanPtr, null, Span, index_zero, Heap, span_by_index, index_is_zero}
use shiyanhui_libcsp.Mem.Spans.{put_span, put_links, set_value, set_fp_next, set_fp_pre, cache_set}

abbrev pub Spans : Type 0
Spans = SpanPtr → Span

-- A span record that its own index leads to.
abbrev pub Known : Spans → SpanPtr → Type 0
Known s p = (p ≢ null) × (span_by_index (s p).index ≡ p)

-- From `p` the indices `fp_next` lead through `xs` to NULL, and each `fp_pre` leads back.
abbrev pub Chain : Spans → SpanPtr → SpanPtr → List SpanPtr → Type 0
Chain s pre p [] = p ≡ null
Chain s pre p (x ∷ xs) =
    (p ≡ x)
    × Known s x
    × (span_by_index (s x).fp_pre ≡ pre)
    × Chain s x (span_by_index (s x).fp_next) xs

-- The spans that are listed at a node.
pub record IsFreeList (h : Heap) (node : Rbtree.Ptr) (xs : List SpanPtr) : Type 0 where
  pub chain : Chain h.spans null (h.tree.nodes node).value xs
  pub distinct : Distinct xs

pub span_by_index-zero : span_by_index index_zero ≡ null
unfolding span_by_index index_is_zero
span_by_index-zero = refl

-- A chain survives any change that spares its own spans.
pub Chain-frame :
    (s g : Spans) (pre p : SpanPtr) (xs : List SpanPtr)
    → ((a : SpanPtr) → has a xs ≡ true → g a ≡ s a)
    → Chain s pre p xs
    → Chain g pre p xs
Chain-frame s g pre p [] same c = c
Chain-frame s g pre p (x ∷ xs) same (e, k, b, c) =
    let here : g x ≡ s x = same x (ground arith) in
    (
      e,
      (k.0, rw here k.1),
      rw here b,
      rw here (Chain-frame s g x (span_by_index (s x).fp_next) xs (λ a i. same a (ground arith)) c),
    )

-- A span that is on no list.
pub record Loose (h : Heap) (xs : List SpanPtr) (p : SpanPtr) : Type 0 where
  pub known : Known h.spans p
  pub absent : has p xs ≡ false
  pub first : span_by_index (h.spans p).fp_pre ≡ null

put_links-other :
    (s : Spans) (span next a : SpanPtr) → a ≢ span → a ≢ next → put_links span next s a ≡ s a
unfolding put_links set_fp_next set_fp_pre
put_links-other s span next a n m = ground arith

put_links-Chain :
    (h : Heap) (p span : SpanPtr) (xs : List SpanPtr)
    → Chain h.spans null p xs
    → Distinct xs
    → Loose h xs span
    → Chain (put_links span p h.spans) null span (span ∷ xs)
unfolding put_links set_fp_next set_fp_pre
put_links-Chain h p span [] e d l =
    let test : (p == null) ≡ true = ground arith in
    let self : (span == span) ≡ true = ground arith in
    rw (test, self) (refl, l.known, l.first, span_by_index-zero)
put_links-Chain h p span (x ∷ xs) (e, k, b, c) d l =
    let test : (p == null) ≡ false = ground (arith, k.0) in
    let self : (span == span) ≡ true = ground arith in
    let self_x : (x == x) ≡ true = ground arith in
    let apart : (x == span) ≡ false = ground (arith, l.absent) in
    let apart' : (span == x) ≡ false = ground (arith, l.absent) in
    rw (test, e, self, self_x, apart, apart')
      (
        refl,
        l.known,
        l.first,
        (
          k.1,
          k,
          l.known.1,
          Chain-frame h.spans (put_links span p h.spans) x (span_by_index (h.spans x).fp_next) xs
              (λ a i.
                put_links-other h.spans span p a (λ m. ground (arith, l.absent))
                  (λ m. ground (arith, d.0)))
              c,
        ),
      )

-- `csp_mem_tree_node_put_span` puts a span that is on no list in front of the free list of a node
-- whose key the cache has room for, and caches the node.
pub put_span-cons :
    (h : Heap) (node : Rbtree.Ptr) (span : SpanPtr) (xs : List SpanPtr)
    → IsFreeList h node xs
    → Loose h xs span
    → (h.tree.nodes node).key < 4096
    → (g : Heap) × (put_span node span h ≡ some g)
      × IsFreeList g node (span ∷ xs)
      × (g.cache_nodes (h.tree.nodes node).key ≡ node)
unfolding put_span set_value cache_set set_fp_next
put_span-cons h node span xs v l small =
    let self : (node == node) ≡ true = ground arith in
    let room : ltb (h.tree.nodes node).key 4096 ≡ true = ground arith in
    let key = (h.tree.nodes node).key in
    let next = (h.tree.nodes node).value in
    let h1 = set_value node span (record h { spans = put_links span next h.spans }) in
    (
      record h1 { cache_nodes = update h1.cache_nodes key node },
      rw room,
      record {
        chain = rw self (put_links-Chain h next span xs v.chain v.distinct l);
        distinct = (l.absent, v.distinct);
      },
      ground arith,
    )
