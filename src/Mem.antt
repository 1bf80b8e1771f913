-- ===== src/Mem.antt =====
-- src/mem.c: the address layout, the records of spans and pages, and the heap of one CPU. A span
-- record `metas[l1]->spans[l2]` is named by a number that is 0 for NULL.
pub mod Layout
pub mod Spans
pub mod Merge
pub mod Arena
pub mod Alloc
pub mod Lists
pub mod Unlink
pub mod Delete
pub mod Limit
mod Tests
use shiyanhui_libcsp.Base.{
  ℕ, zero, suc, ◌+◌, ◌-◌, ◌*◌, ◌/◌, ◌%◌, ◌^◌, bit_and, bit_or, Bool, true, false, List, [], ◌∷◌,
  ◌==◌, if◌then◌else◌, update,
}
use shiyanhui_libcsp.Rbtree
use shiyanhui_libcsp.Rbtree.{Tree}

abbrev pub heap_size_exp : ℕ
heap_size_exp = 36

abbrev pub arena_size_exp : ℕ
arena_size_exp = 24

abbrev pub page_size_exp : ℕ
page_size_exp = 12

abbrev pub l1_num_exp : ℕ
l1_num_exp = 8

-- `csp_mem_meta_l2_num_exp`: 16.
abbrev pub l2_num_exp : ℕ
l2_num_exp = heap_size_exp - l1_num_exp - page_size_exp

-- `csp_mem_meta_l1_size` as a power of two.
abbrev pub l1_size_exp : ℕ
l1_size_exp = heap_size_exp - l1_num_exp

-- `csp_mem_arena_npages`, which is `csp_mem_tree_node_num` too.
abbrev pub arena_npages : ℕ
arena_npages = 2 ^ (arena_size_exp - page_size_exp)

abbrev pub SpanPtr : Type 0
SpanPtr = ℕ

abbrev pub null : ℕ
null = 0

-- `csp_mem_meta_index_t`: three bytes.
pub record Index : Type 0 where
  pub byte0 : ℕ
  pub byte1 : ℕ
  pub byte2 : ℕ

-- `csp_mem_meta_index_set_by_l1l2`.
unfoldable pub index_of : (l1 l2 : ℕ) → Index
index_of l1 l2 = record { byte0 = l1 % 2 ^ 8; byte1 = l2 / 2 ^ 8 % 2 ^ 8; byte2 = l2 % 2 ^ 8 }

-- `csp_mem_meta_index_set_zero`.
abbrev pub index_zero : Index
index_zero = record { byte0 = 0; byte1 = 0; byte2 = 0 }

unfoldable pub index_is_zero : Index → Bool
index_is_zero i = bit_or (bit_or i.byte0 i.byte1) i.byte2 == 0

-- `csp_mem_meta_l1_by_index`.
unfoldable pub l1_by_index : Index → ℕ
l1_by_index i = i.byte0

-- `csp_mem_meta_l2_by_index`.
unfoldable pub l2_by_index : Index → ℕ
l2_by_index i = bit_or (i.byte1 * 2 ^ 8) i.byte2

-- `csp_mem_span_t`; `npages` is an array of three bytes.
pub record Span : Type 0 where
  pub npages : Index
  pub index : Index
  pub mt_pre : Index
  pub mt_next : Index
  pub fp_pre : Index
  pub fp_next : Index

-- `csp_mem_span_npages_get` and `csp_mem_span_npages_set`.
unfoldable pub npages_get : Span → ℕ
npages_get s = bit_or (bit_or (s.npages.byte0 * 2 ^ 16) (s.npages.byte1 * 2 ^ 8)) s.npages.byte2

unfoldable pub npages_set : Span → ℕ → Span
npages_set s n = record s {
  npages = record { byte0 = n / 2 ^ 16 % 2 ^ 8; byte1 = n / 2 ^ 8 % 2 ^ 8; byte2 = n % 2 ^ 8 };
}

-- `csp_mem_heap_t` without its scratch arrays: `metas` tells which entries are not NULL, the links
-- of arenas are their addresses, a mailbox is the list of objects in it, and `fresh` is where malloc
-- puts the next tree node.
pub record Heap : Type 0 where
  pub start : ℕ
  pub end_ : ℕ
  pub curr : ℕ
  pub arenas : List ℕ
  pub metas : ℕ → Bool
  pub mailboxes : ℕ → List ℕ
  pub spans : SpanPtr → Span
  pub taken_bits : ℕ → ℕ → ℕ
  pub tree : Tree
  pub cache_nodes : ℕ → Rbtree.Ptr
  pub fresh : ℕ

-- `csp_mem_heap_offset`.
unfoldable pub heap_offset : Heap → (addr : ℕ) → ℕ
heap_offset h addr = (addr + 2 ^ 64 - h.start) % 2 ^ 64

-- `csp_mem_meta_l1_by_addr`.
unfoldable pub l1_by_addr : Heap → (addr : ℕ) → ℕ
unfolding heap_offset
l1_by_addr h addr = heap_offset h addr / 2 ^ l1_size_exp

-- `csp_mem_meta_l2_by_addr`.
unfoldable pub l2_by_addr : Heap → (addr : ℕ) → ℕ
unfolding heap_offset
l2_by_addr h addr = bit_and (heap_offset h addr) (2 ^ l1_size_exp - 1) / 2 ^ page_size_exp

-- `csp_mem_meta_l1l2_to_addr`.
unfoldable pub l1l2_to_addr : Heap → (l1 l2 : ℕ) → ℕ
l1l2_to_addr h l1 l2 = (l1 * 2 ^ l1_size_exp + l2 * 2 ^ page_size_exp + h.start) % 2 ^ 64

-- `csp_mem_meta_span_by_l1l2`.
unfoldable pub span_by_l1l2 : (l1 l2 : ℕ) → SpanPtr
span_by_l1l2 l1 l2 = suc (l1 * 2 ^ l2_num_exp + l2)

-- `csp_mem_meta_span_by_addr`.
unfoldable pub span_by_addr : Heap → (addr : ℕ) → SpanPtr
unfolding l1_by_addr l2_by_addr span_by_l1l2
span_by_addr h addr = span_by_l1l2 (l1_by_addr h addr) (l2_by_addr h addr)

-- `csp_mem_meta_span_by_index`.
unfoldable pub span_by_index : Index → SpanPtr
unfolding index_is_zero l1_by_index l2_by_index span_by_l1l2
span_by_index i = if index_is_zero i then null else span_by_l1l2 (l1_by_index i) (l2_by_index i)

-- The mask of a page in its byte of taken bits: `0x01 << (0x07 - (l2 & 0x07))`.
unfoldable pub taken_mask : (l2 : ℕ) → ℕ
taken_mask l2 = 2 ^ (7 - bit_and l2 7)

-- `csp_mem_meta_taken_bit`.
unfoldable pub taken_bit : Heap → (l1 l2 : ℕ) → ℕ
unfolding taken_mask
taken_bit h l1 l2 = bit_and (h.taken_bits l1 (l2 / 2 ^ 3) / taken_mask l2) 1

unfoldable pub taken_byte_put : Heap → (l1 i b : ℕ) → Heap
taken_byte_put h l1 i b = record h {
  taken_bits = update h.taken_bits l1 (update (h.taken_bits l1) i b);
}

-- `csp_mem_meta_taken_bit_set` and `csp_mem_meta_taken_bit_clear`.
unfoldable pub taken_bit_set : (l1 l2 : ℕ) → Heap → Heap
unfolding taken_mask taken_byte_put
taken_bit_set l1 l2 h =
    taken_byte_put h l1 (l2 / 2 ^ 3) (bit_or (h.taken_bits l1 (l2 / 2 ^ 3)) (taken_mask l2))

unfoldable pub taken_bit_clear : (l1 l2 : ℕ) → Heap → Heap
unfolding taken_mask taken_byte_put
taken_bit_clear l1 l2 h =
    taken_byte_put h l1 (l2 / 2 ^ 3)
      (bit_and (h.taken_bits l1 (l2 / 2 ^ 3)) (2 ^ 8 - 1 - taken_mask l2))
