-- ===== src/Mem/Spans.antt =====
-- src/mem.c: the free lists of spans at the nodes of the tree, the cache of nodes and the merge of
-- adjacent spans. `none` is an access outside of an array or through NULL.
use shiyanhui_libcsp.Base.{
  ℕ, zero, suc, ◌+◌, Bool, not, ◌&&◌, Option, none, some, ◌==◌, ltb, if◌then◌else◌, update, ◌>>=◌,
}
use shiyanhui_libcsp.Rbtree
use shiyanhui_libcsp.Rbtree.{Tree, Node, find, find_gte, all_nodes}
use shiyanhui_libcsp.Rbtree.Insert.{insert}
use shiyanhui_libcsp.Rbtree.Delete.{delete}
use shiyanhui_libcsp.Mem.{
  SpanPtr, null, Index, index_zero, Span, Heap, npages_get, npages_set, span_by_index, l1_by_index,
  l2_by_index, taken_bit, arena_npages,
}

-- `csp_mem_tree_node_cache_get`: the array has as many entries as an arena has pages.
unfoldable pub cache_get : (npages : ℕ) → Heap → Option Rbtree.Ptr
cache_get npages h = if ltb npages arena_npages then some (h.cache_nodes npages) else none

-- `csp_mem_tree_node_cache_set`.
unfoldable pub cache_set : (npages : ℕ) → Rbtree.Ptr → Heap → Option Heap
cache_set npages node h =
    if ltb npages arena_npages
    then some (record h { cache_nodes = update h.cache_nodes npages node })
    else none

-- What `csp_mem_tree_node_get_by_func` does with the node that the tree gives.
unfoldable pub cache_found : Option Rbtree.Ptr → Heap → Option (Rbtree.Ptr × Heap)
unfolding cache_set
cache_found none h = some (null, h)
cache_found (some p) h = cache_set (h.tree.nodes p).key p h >>= λ h'. some (p, h')

-- `csp_mem_tree_node_get_by_func`.
unfoldable pub node_get_by :
    (func : Tree → ℕ → Option Rbtree.Ptr) → (npages : ℕ) → Heap → Option (Rbtree.Ptr × Heap)
unfolding cache_get cache_found
node_get_by func npages h = do
  cached ← cache_get npages h
  if cached == null then cache_found (func h.tree npages) h else some (cached, h)

-- `csp_mem_tree_node_get_gte` and `csp_mem_tree_node_get`.
unfoldable pub node_get_gte : (npages : ℕ) → Heap → Option (Rbtree.Ptr × Heap)
unfolding node_get_by find_gte
node_get_gte = node_get_by find_gte

unfoldable pub node_get : (npages : ℕ) → Heap → Option (Rbtree.Ptr × Heap)
unfolding node_get_by find
node_get = node_get_by find

unfoldable pub set_span : SpanPtr → Span → Heap → Heap
set_span p v h = record h { spans = update h.spans p v }

-- `csp_mem_meta_index_set` of the links in a free list.
unfoldable pub set_fp_next : SpanPtr → Index → (SpanPtr → Span) → SpanPtr → Span
set_fp_next p i s = update s p (record (s p) { fp_next = i })

unfoldable pub set_fp_pre : SpanPtr → Index → (SpanPtr → Span) → SpanPtr → Span
set_fp_pre p i s = update s p (record (s p) { fp_pre = i })

unfoldable pub set_mt_next : SpanPtr → Index → Heap → Heap
unfolding set_span
set_mt_next p i h = set_span p (record (h.spans p) { mt_next = i }) h

unfoldable pub set_mt_pre : SpanPtr → Index → Heap → Heap
unfolding set_span
set_mt_pre p i h = set_span p (record (h.spans p) { mt_pre = i }) h

unfoldable pub set_npages : SpanPtr → ℕ → Heap → Heap
unfolding set_span npages_set
set_npages p n h = set_span p (npages_set (h.spans p) n) h

-- `node->value = span`.
unfoldable pub set_value : Rbtree.Ptr → SpanPtr → Heap → Heap
set_value node span h = record h {
  tree = record h.tree {
    nodes = update h.tree.nodes node (record (h.tree.nodes node) { value = span });
  };
}

-- `csp_rbtree_insert` on the tree of the heap.
unfoldable pub tree_insert : (key : ℕ) → Heap → Rbtree.Ptr × Heap
unfolding insert
tree_insert key h =
    let (node, t) = insert h.fresh key h.tree in (node, record h { tree = t; fresh = h.fresh + 1 })

-- The links of a span that becomes the first of its list.
unfoldable pub put_links : (span next : SpanPtr) → (SpanPtr → Span) → SpanPtr → Span
unfolding set_fp_next set_fp_pre
put_links span next s =
    let linked = set_fp_next span (s next).index s in
    if next == null
    then set_fp_next span index_zero s
    else set_fp_pre next (linked span).index linked

-- `csp_mem_tree_node_put_span`.
unfoldable pub put_span : Rbtree.Ptr → SpanPtr → Heap → Option Heap
unfolding put_links set_value cache_set
put_span node span h =
    let next = (h.tree.nodes node).value in
    let h1 = set_value node span (record h { spans = put_links span next h.spans }) in
    cache_set (h.tree.nodes node).key node h1

-- A span whose list has others: the links of its neighbours and its own.
unfoldable pub del_links : (span pre next : SpanPtr) → (SpanPtr → Span) → SpanPtr → Span
unfolding set_fp_next set_fp_pre
del_links span pre next s =
    if not (pre == null) && not (next == null)
    then (let s1 = set_fp_next pre (s next).index s in
        let s2 = set_fp_pre next (s1 pre).index s1 in
        set_fp_next span index_zero (set_fp_pre span index_zero s2))
    else if not (pre == null)
    then set_fp_pre span index_zero (set_fp_next pre index_zero s)
    else set_fp_next span index_zero (set_fp_pre next index_zero s)

-- The node of an empty list is deleted; a node that took over another one's key is cached for it.
unfoldable pub del_node : Rbtree.Ptr → Heap → Option Heap
unfolding cache_set delete cache_found
del_node node h = do
  h1 ← cache_set (h.tree.nodes node).key null h
  let (succ, t) = delete h1.tree node in cache_found succ (record h1 { tree = t }) >>= λ r. some r.1

-- `csp_mem_tree_node_del_span`: the span behind, and the heap.
unfoldable pub del_span : Rbtree.Ptr → SpanPtr → Heap → Option (SpanPtr × Heap)
unfolding span_by_index del_links del_node set_value
del_span node span h =
    let pre = span_by_index (h.spans span).fp_pre in
    let next = span_by_index (h.spans span).fp_next in
    let h1 = record h { spans = del_links span pre next h.spans } in
    if pre == null && next == null
    then (del_node node h >>= λ h'. some (next, h'))
    else some (next, if pre == null then set_value node next h1 else h1)

-- `csp_mem_span_is_free`.
unfoldable pub span_is_free : SpanPtr → Heap → Bool
unfolding l1_by_index l2_by_index taken_bit
span_is_free p h =
    let i = (h.spans p).index in not (p == null) && taken_bit h (l1_by_index i) (l2_by_index i) == 0

-- `csp_mem_span_remove`: the span behind, the total and the heap.
unfoldable pub span_remove : SpanPtr → (total : ℕ) → Heap → Option (SpanPtr × ℕ × Heap)
unfolding npages_get node_get del_span
span_remove p total h = node_get (npages_get (h.spans p)) h >>= λ g.
    if g.0 == null
    then none
    else del_span g.0 p g.1 >>= λ r. some (r.0, total + npages_get (h.spans p), r.1)

-- The free spans on one side, on fuel: the last one, the first that is not free, total and heap.
unfoldable pub gather :
    ℕ
    → (side : Span → Index) → (at end_ : SpanPtr) → (total : ℕ) → Heap
    → Option (SpanPtr × SpanPtr × ℕ × Heap)
unfolding span_is_free span_remove span_by_index
gather zero side at end_ total h = none
gather (suc fuel) side at end_ total h =
    let rest = span_remove at total h >>= λ r.
    gather fuel side (span_by_index (side (r.2.spans at))) at r.1 r.2 in
    if span_is_free at h then rest else some (end_, at, total, h)

-- The spans gathered become one, at `start`, and `next` is the span behind them.
unfoldable pub merged : (start next : SpanPtr) → (total : ℕ) → Heap → Option Heap
unfolding tree_insert set_npages put_span set_mt_next set_mt_pre
merged start next total h =
    let (node, h1) = tree_insert total h in
    put_span node start (set_npages start total h1) >>= λ h2.
    if next == null
    then some (set_mt_next start index_zero h2)
    else let h3 = set_mt_next start (h2.spans next).index h2 in
      some (set_mt_pre next (h3.spans start).index h3)
