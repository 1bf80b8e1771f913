-- ===== src/Mem/Tests.antt =====
-- Runs of the memory manager.
use shiyanhui_libcsp.Base.{
  ℕ, ◌+◌, ◌-◌, ◌*◌, ◌^◌, ◌≡◌, refl, true, false, Option, none, some, [], ◌∷◌, ◌>>=◌, arith, update,
}
use shiyanhui_libcsp.Mem.{Heap, Span, index_zero, index_of, span_by_index}
use shiyanhui_libcsp.Mem.Alloc.{heap_init, heap_alloc, heap_free}
use shiyanhui_libcsp.Mem.Spans.{del_span}
use shiyanhui_libcsp.Mem.Lists.{IsFreeList, Loose}
use shiyanhui_libcsp.Mem.Delete.{del_span-cut}
use shiyanhui_libcsp.Mem.Limit.{heap_alloc-arena}

abbrev blank_span : Span
blank_span = record {
  npages = index_zero;
  index = index_zero;
  mt_pre = index_zero;
  mt_next = index_zero;
  fp_pre = index_zero;
  fp_next = index_zero;
}

abbrev first_heap : Option Heap
unfolding heap_init
first_heap =
    heap_init (λ a. true)
      (λ p. record { key = 0; value = 0; is_red = false; left = 0; right = 0; father = 0 })
      (λ p. blank_span) (2 ^ 36)

-- The addresses that two requests get, the second one behind what `between` does.
abbrev requests : (size1 size2 : ℕ) → (between : ℕ → Heap → Option Heap) → Option (ℕ × ℕ)
unfolding heap_alloc first_heap
requests size1 size2 between = first_heap >>= λ h. heap_alloc (λ a. true) size1 h >>= λ r.
    between r.0 r.1 >>= λ g. heap_alloc (λ a. true) size2 g >>= λ s. some (r.0, s.0)

-- Pieces of one page and of two pages stand side by side.
two_pieces : requests 4096 8192 (λ a h. some h) ≡ some (2 ^ 36 + 4096, 2 ^ 36 + 2 * 4096)
unfolding first_heap heap_init heap_alloc requests
two_pieces = refl

-- A piece that is freed is given out again.
again : requests 4096 4096 heap_free ≡ some (2 ^ 36 + 4096, 2 ^ 36 + 4096)
unfolding first_heap heap_init heap_alloc heap_free requests
again = refl

abbrev known_span : (page : ℕ) → Span
unfolding index_of
known_span p = record blank_span { index = index_of 0 p }

-- The spans of the pages 1 and 2; node 7 for 300 pages lists the span of page 1.
abbrev listed : Heap
unfolding known_span
listed = record {
  start = 2 ^ 36;
  end_ = 2 ^ 37;
  curr = 2 ^ 36;
  arenas = [];
  metas = λ l1. true;
  mailboxes = λ l1. [];
  spans = λ p. known_span (p - 1);
  taken_bits = λ l1 i. 0;
  tree = record {
    root = 7;
    sentry = 1;
    nnodes = 1;
    nodes = λ p. record { key = 300; value = 2; is_red = false; left = 1; right = 1; father = 1 };
  };
  cache_nodes = λ n. 0;
  fresh = 8;
}

listed-IsFreeList : IsFreeList listed 7 (2 ∷ [])
unfolding listed known_span index_of span_by_index
listed-IsFreeList = record { chain = (refl, ((λ e. cc), refl), refl, refl); distinct = (refl, tt) }

three-Loose : Loose listed (2 ∷ []) 3
unfolding listed known_span index_of span_by_index
three-Loose = record { known = ((λ e. cc), refl); absent = refl; first = refl }

heap_alloc-arena_example : heap_alloc (λ a. true) (2 ^ 24) listed ≡ none
heap_alloc-arena_example = heap_alloc-arena (λ a. true) (2 ^ 24) listed (omega arith)

-- Node 7 lists the span of page 1 and behind it that of page 2.
abbrev paired : Heap
unfolding listed known_span index_of
paired = record listed {
  spans =
      update (update (λ p. known_span (p - 1)) 2 (record (known_span 1) { fp_next = index_of 0 2 }))
        3 (record (known_span 2) { fp_pre = index_of 0 1 });
}

paired-IsFreeList : IsFreeList paired 7 (2 ∷ 3 ∷ [])
unfolding listed paired known_span index_of span_by_index
paired-IsFreeList = record {
  chain = (refl, ((λ e. cc), refl), refl, (refl, ((λ e. cc), refl), refl, refl));
  distinct = (refl, (refl, tt));
}

del_span-cut_example :
    (g : Heap) × (del_span 7 2 paired ≡ some (3, g)) × IsFreeList g 7 (3 ∷ []) × Loose g (3 ∷ []) 2
del_span-cut_example = del_span-cut paired 7 2 [] (3 ∷ []) paired-IsFreeList (λ e. cc)
