-- ===== src/Mem/Alloc.antt =====
-- src/mem.c: csp_mem_heap_free, csp_mem_heap_alloc, csp_mem_heap_init, and csp_mem_alloc and
-- csp_mem_free on the heaps of all CPUs. `none` is an exit of the program or an access outside of an
-- array. Whether mmap can give the address asked for is the parameter `mapped`.
use shiyanhui_libcsp.Base.{
  ℕ, zero, suc, ◌+◌, ◌-◌, ◌/◌, ◌%◌, ◌^◌, Bool, true, false, ◌&&◌, ◌||◌, Option, none, some, List,
  [], ◌∷◌, ◌++◌, ◌==◌, ltb, leb, if◌then◌else◌, update, ◌>>=◌, take, drop, length, bit_and, min,
}
use shiyanhui_libcsp.Rbtree
use shiyanhui_libcsp.Rbtree.{Tree, Node, all_nodes}
use shiyanhui_libcsp.Mem.{
  SpanPtr, null, Span, Heap, npages_get, span_by_index, span_by_l1l2, span_by_addr, l1_by_index,
  l2_by_index, l1_by_addr, l2_by_addr, l1l2_to_addr, taken_bit_set, taken_bit_clear, arena_npages,
  arena_size_exp, page_size_exp, heap_size_exp, l1_num_exp, l2_num_exp,
}
use shiyanhui_libcsp.Mem.Spans.{
  node_get_gte, set_mt_next, set_mt_pre, set_npages, put_span, del_span, tree_insert,
}
use shiyanhui_libcsp.Mem.Merge.{merge}
use shiyanhui_libcsp.Mem.Arena.{ensure_l1, arena_new}

-- `csp_mem_heap_free`.
unfoldable pub heap_free : (obj : ℕ) → Heap → Option Heap
unfolding l1_by_addr l2_by_addr taken_bit_clear span_by_l1l2 tree_insert npages_get put_span
heap_free obj h =
    let l1 = l1_by_addr h obj in
    let l2 = l2_by_addr h obj in
    let curr = span_by_l1l2 l1 l2 in
    let (node, h1) = tree_insert (npages_get (h.spans curr)) (taken_bit_clear l1 l2 h) in
    put_span node curr h1

unfoldable pub free_each : List ℕ → Heap → Option Heap
unfolding heap_free
free_each [] h = some h
free_each (obj ∷ objs) h = heap_free obj h >>= λ h1. free_each objs h1

-- One mailbox is emptied, 16 objects at a time, on fuel; and whether it had any.
unfoldable pub drain : ℕ → (i : ℕ) → Heap → Option (Bool × Heap)
unfolding free_each
drain zero i h = none
drain (suc fuel) i h =
    let objs = take 16 (h.mailboxes i) in
    let h1 = record h { mailboxes = update h.mailboxes i (drop 16 (h.mailboxes i)) } in
    let rest = free_each objs h1 >>= λ h2. drain fuel i h2 >>= λ r. some (true, r.1) in
    let last = free_each objs h1 >>= λ h2. some (true, h2) in
    if length objs == 0 then some (false, h) else if ltb (length objs) 16 then last else rest

-- The mailboxes from `i` on, up to the first that is NULL; `left` counts down to 0.
unfoldable pub collect : (left i : ℕ) → Heap → Option (Bool × Heap)
unfolding drain
collect zero i h = some (false, h)
collect (suc left) i h =
    let rest = drain (suc (length (h.mailboxes i))) i h >>= λ r.
    collect left (suc i) r.1 >>= λ s. some (r.0 || s.0, s.1) in
    if h.metas i then rest else some (false, h)

-- Where the part behind the first `npages` of a span stands.
unfoldable pub split_at : (l1 l2 npages : ℕ) → ℕ × ℕ
split_at l1 l2 npages =
    let new_l2 = l2 + npages in
    let overflow = new_l2 - 2 ^ l2_num_exp + 1 in
    let low = bit_and overflow (2 ^ l2_num_exp - 1) in
    if leb (2 ^ l2_num_exp) new_l2
    then (l1 + (overflow / 2 ^ l2_num_exp + (if low == 0 then 0 else 1)), low)
    else (l1, new_l2)

-- The new span behind `span` in the list of neighbours.
unfoldable pub link_new : (span new_span : SpanPtr) → Heap → Heap
unfolding span_by_index set_mt_pre set_mt_next
link_new span new_span h =
    let next = span_by_index (h.spans span).mt_next in
    let h1 = set_mt_pre new_span (h.spans span).index h in
    let h2 = set_mt_next new_span (h1.spans span).mt_next h1 in
    let h3 = set_mt_next span (h2.spans new_span).index h2 in
    if next == null then h3 else set_mt_pre next (h3.spans new_span).index h3

-- The split of a span of `key` pages that is larger than the request.
unfoldable pub split_span : (span : SpanPtr) → (l1 l2 key npages : ℕ) → Heap → Option Heap
unfolding set_npages split_at ensure_l1 span_by_l1l2 taken_bit_clear link_new tree_insert put_span
split_span span l1 l2 key npages h =
    let h1 = set_npages span npages h in
    let (new_l1, new_l2) = split_at l1 l2 npages in
    let h2 = if leb (2 ^ l2_num_exp) (l2 + npages) then ensure_l1 new_l1 h1 else h1 in
    let new_span = span_by_l1l2 new_l1 new_l2 in
    let h3 = taken_bit_clear new_l1 new_l2 (set_npages new_span (key - npages) h2) in
    let (node, h4) = tree_insert (key - npages) (link_new span new_span h3) in
    put_span node new_span h4

-- Pages from the first span of a node.
unfoldable pub take_pages : Rbtree.Ptr → (npages : ℕ) → Heap → Option (ℕ × Heap)
unfolding del_span l1_by_index l2_by_index taken_bit_set l1l2_to_addr split_span
take_pages node npages h =
    let key = (h.tree.nodes node).key in
    let span = (h.tree.nodes node).value in
    del_span node span h >>= λ r.
    let l1 = l1_by_index (r.1.spans span).index in
    let l2 = l2_by_index (r.1.spans span).index in
    let h1 = taken_bit_set l1 l2 r.1 in
    let result = l1l2_to_addr h1 l1 l2 in
    if ltb npages key
    then (split_span span l1 l2 key npages h1 >>= λ h2. some (result, h2))
    else some (result, h1)

-- Pages from a new arena.
unfoldable pub from_arena : (mapped : ℕ → Bool) → (size npages : ℕ) → Heap → Option (ℕ × Heap)
unfolding arena_new span_by_addr l1_by_addr l2_by_addr set_npages taken_bit_set set_mt_next
    set_mt_pre tree_insert put_span
from_arena mapped size npages h = arena_new mapped h >>= λ r.
    let (result, h0) = r in
    let span = span_by_addr h0 result in
    let h1 =
      taken_bit_set (l1_by_addr h0 result) (l2_by_addr h0 result) (set_npages span npages h0) in
    let new_span = span_by_addr h1 (result + size) in
    let h2 = set_npages new_span (arena_npages - npages) h1 in
    let h3 = set_mt_next span (h2.spans new_span).index h2 in
    let h4 = set_mt_pre new_span (h3.spans span).index h3 in
    let (node, h5) = tree_insert (arena_npages - npages) h4 in
    if ltb size (2 ^ arena_size_exp)
    then (put_span node new_span h5 >>= λ h6. some (result, h6))
    else some (result, h1)

-- A search that failed: pages that other cores returned, then a merge of adjacent spans.
unfoldable pub search_again : (npages : ℕ) → Heap → Option (Rbtree.Ptr × Heap)
unfolding collect node_get_gte merge
search_again npages h = collect (2 ^ l1_num_exp) 0 h >>= λ r.
    (if r.0 then node_get_gte npages r.1 else some (null, r.1)) >>= λ s.
    if s.0 == null && ltb 1 npages then (merge s.1 >>= λ h1. node_get_gte npages h1) else some s

-- What `csp_mem_heap_alloc` does with the outcome of the first search.
unfoldable pub serve :
    (mapped : ℕ → Bool) → (size npages : ℕ) → Rbtree.Ptr × Heap → Option (ℕ × Heap)
unfolding search_again take_pages from_arena
serve mapped size npages r = (if r.0 == null then search_again npages r.1 else some r) >>= λ s.
    if s.0 == null then from_arena mapped size npages s.1 else take_pages s.0 npages s.1

-- `csp_mem_heap_alloc` of a size that is cut down to an arena's, and so many pages.
unfoldable pub alloc_pages : (mapped : ℕ → Bool) → (size npages : ℕ) → Heap → Option (ℕ × Heap)
unfolding node_get_gte serve
alloc_pages mapped size npages h = node_get_gte npages h >>= serve mapped size npages

-- `csp_mem_heap_alloc`: the address and the heap.
unfoldable pub heap_alloc : (mapped : ℕ → Bool) → (size : ℕ) → Heap → Option (ℕ × Heap)
unfolding alloc_pages
heap_alloc mapped asked h =
    let size = min asked (2 ^ arena_size_exp) in
    alloc_pages mapped size (size / 2 ^ page_size_exp) h

-- `csp_mem_heap_init`, with the sentry of the tree at 1 and malloc's next address 2.
unfoldable pub heap_init :
    (mapped : ℕ → Bool)
    → (blank : Rbtree.Nodes) → (spans : SpanPtr → Span) → (start : ℕ) → Option Heap
unfolding Rbtree.new arena_new tree_insert span_by_addr set_npages put_span
heap_init mapped blank spans start =
    arena_new mapped (record {
      start = start;
      end_ = (start + 2 ^ heap_size_exp) % 2 ^ 64;
      curr = (start + 2 ^ 64 - 2 ^ arena_size_exp) % 2 ^ 64;
      arenas = [];
      metas = λ l1. false;
      mailboxes = λ l1. [];
      spans = spans;
      taken_bits = λ l1 i. 0;
      tree = Rbtree.new 1 blank;
      cache_nodes = λ n. null;
      fresh = 2;
    })
    >>= λ r.
        let skip = r.0 == start in
        let mem = if skip then r.0 + 2 ^ page_size_exp else r.0 in
        let n = if skip then arena_npages - 1 else arena_npages in
        let (node, h) = tree_insert n r.1 in
        let span = span_by_addr h mem in put_span node span (set_npages span n h)

-- The heap of one CPU is given anew.
unfoldable pub on_heap : (pid : ℕ) → (ℕ → Heap) → Option Heap → Option (ℕ → Heap)
on_heap pid heaps none = none
on_heap pid heaps (some h) = some (update heaps pid h)

-- `csp_mem_alloc`.
unfoldable pub mem_alloc :
    (mapped : ℕ → Bool) → (pid size : ℕ) → (ℕ → Heap) → Option (ℕ × (ℕ → Heap))
unfolding heap_alloc
mem_alloc mapped pid size heaps =
    heap_alloc mapped size (heaps pid) >>= λ r. some (r.0, update heaps pid r.1)

-- The push to a mailbox, which has room.
unfoldable pub mail : (obj : ℕ) → Heap → Heap
unfolding l1_by_addr
mail obj h =
    let l1 = l1_by_addr h obj in
    record h { mailboxes = update h.mailboxes l1 (h.mailboxes l1 ++ obj ∷ []) }

-- `csp_mem_free`, by the thread of a CPU or by one that is no core's, the monitor.
unfoldable pub mem_free : (this_core : Option ℕ) → (pid obj : ℕ) → (ℕ → Heap) → Option (ℕ → Heap)
unfolding heap_free mail on_heap
mem_free none pid obj heaps = on_heap pid heaps (some (mail obj (heaps pid)))
mem_free (some this) pid obj heaps =
    on_heap pid heaps
      (if this == pid then heap_free obj (heaps pid) else some (mail obj (heaps pid)))
