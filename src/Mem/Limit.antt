-- ===== src/Mem/Limit.antt =====
-- The largest request of csp_mem_heap_alloc in src/mem.c.
use shiyanhui_libcsp.Base.{
  ℕ, ◌/◌, ◌^◌, ◌≤◌, ◌≡◌, Bool, Option, none, arith, min, ltb, ap, false, ◌>>=◌,
}
use shiyanhui_libcsp.Mem.{Heap}
use shiyanhui_libcsp.Mem.Spans.{node_get_gte, node_get_by, cache_get}
use shiyanhui_libcsp.Mem.Alloc.{alloc_pages, serve, heap_alloc}

gte-none : (npages : ℕ) (h : Heap) → 4096 ≤ npages → node_get_gte npages h ≡ none
unfolding node_get_gte node_get_by cache_get
gte-none npages h big = let outside : ltb npages 4096 ≡ false = ground arith in rw outside

pages-none :
    (mapped : ℕ → Bool) (size npages : ℕ) (h : Heap)
    → 4096 ≤ npages
    → alloc_pages mapped size npages h ≡ none
unfolding alloc_pages
pages-none mapped size npages h big =
    ap (λ (m : Option (ℕ × Heap)). m >>= serve mapped size npages) (gte-none npages h big)

-- `csp_mem_heap_alloc` does not allocate a request of a whole arena (2 ^ 24 bytes) or more in any heap: at once it
-- reads the entry 4096 of the cache of nodes, which has 4096 entries.
pub heap_alloc-arena :
    (mapped : ℕ → Bool) (size : ℕ) (h : Heap) → 2 ^ 24 ≤ size → heap_alloc mapped size h ≡ none
unfolding heap_alloc
heap_alloc-arena mapped size h big =
    pages-none mapped (min size (2 ^ 24)) (min size (2 ^ 24) / 2 ^ 12) h (omega arith)
