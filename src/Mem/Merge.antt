-- ===== src/Mem/Merge.antt =====
-- csp_mem_heap_merge of src/mem.c. `none` is an access outside of an array or through NULL.
use shiyanhui_libcsp.Base.{
  ℕ, zero, suc, ◌+◌, ◌^◌, Option, none, some, List, [], ◌∷◌, ◌==◌, if◌then◌else◌, ◌>>=◌,
}
use shiyanhui_libcsp.Rbtree
use shiyanhui_libcsp.Rbtree.{Tree, Node, all_nodes}
use shiyanhui_libcsp.Mem.{SpanPtr, null, Heap, span_by_index, l1_num_exp, l2_num_exp}
use shiyanhui_libcsp.Mem.Spans.{cache_get, cache_set, span_remove, gather, merged}

-- Fuel for the spans of a heap: no list has more of them than the heap has pages.
abbrev pub pages : ℕ
pages = 2 ^ (l1_num_exp + l2_num_exp)

-- One span of `csp_mem_heap_merge`: the span to go on with, and the heap.
unfoldable pub merge_span : SpanPtr → Heap → Option (SpanPtr × Heap)
unfolding span_by_index gather span_remove merged
merge_span span h =
    gather pages (λ s. s.mt_pre) (span_by_index (h.spans span).mt_pre) span 0 h >>= λ a.
    let (start, before, total, h1) = a in
    gather pages (λ s. s.mt_next) (span_by_index (h.spans span).mt_next) span total h1 >>= λ b.
    let (end_, next, total2, h2) = b in
    if start == end_
    then some (span_by_index (h2.spans span).fp_next, h2)
    else (span_remove span total2 h2 >>= λ c. merged start next c.1 c.2 >>= λ h3. some (c.0, h3))

-- The spans of one list, on fuel.
unfoldable pub merge_list : ℕ → SpanPtr → Heap → Option Heap
unfolding merge_span
merge_list zero span h = none
merge_list (suc fuel) span h =
    let rest = merge_span span h >>= λ r. merge_list fuel r.0 r.1 in
    if span == null then some h else rest

-- The keys from the last one on; the node of a key may be gone.
unfoldable pub merge_keys : List ℕ → Heap → Option Heap
unfolding cache_get merge_list
merge_keys [] h = some h
merge_keys (k ∷ ks) h = cache_get k h >>= λ node.
    (if node == null then some h else merge_list pages (h.tree.nodes node).value h) >>= λ h1.
    merge_keys ks h1

-- The nodes are cached, and their keys are listed in the reversed order.
unfoldable pub cache_all : List Rbtree.Ptr → List ℕ → Heap → Option (List ℕ × Heap)
unfolding cache_set
cache_all [] keys h = some (keys, h)
cache_all (p ∷ ps) keys h =
    let key = (h.tree.nodes p).key in cache_set key p h >>= λ h1. cache_all ps (key ∷ keys) h1

-- `csp_mem_heap_merge`.
unfoldable pub merge : Heap → Option Heap
unfolding cache_all merge_keys all_nodes
merge h = all_nodes h.tree >>= λ ps. cache_all ps [] h >>= λ r. merge_keys r.0 r.1
