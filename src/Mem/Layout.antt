-- ===== src/Mem/Layout.antt =====
-- The address layout of src/mem.c: bytes of an index and of a number of pages, pages and addresses.
use shiyanhui_libcsp.Base.{
  ℕ, ◌+◌, ◌-◌, ◌*◌, ◌/◌, ◌%◌, ◌^◌, ◌≤◌, ◌<◌, ◌≡◌, arith, bit_or, bit_and-mask, bit_or-beside,
  bit_or-ge, false, ◌∙◌,
}
use shiyanhui_libcsp.Mem.{
  index_of, index_is_zero, l1_by_index, l2_by_index, span_by_index, span_by_l1l2, Span, npages_get,
  npages_set, Heap, heap_offset, l1_by_addr, l2_by_addr, l1l2_to_addr,
}

-- Two bytes beside each other.
two_bytes : (n : ℕ) → n < 2 ^ 16 → bit_or (n / 2 ^ 8 % 2 ^ 8 * 2 ^ 8) (n % 2 ^ 8) ≡ n
two_bytes n h = bit_or-beside 8 (n / 2 ^ 8 % 2 ^ 8) (n % 2 ^ 8) (omega arith) ∙ omega arith

-- A number of less than 2 ^ 24 pages is read back from the three bytes that it is written to.
pub npages_get-set : (s : Span) (n : ℕ) → n < 2 ^ 24 → npages_get (npages_set s n) ≡ n
unfolding npages_get npages_set
npages_get-set s n h =
    let high : bit_or (n / 2 ^ 16 % 2 ^ 8 * 2 ^ 16) (n / 2 ^ 8 % 2 ^ 8 * 2 ^ 8)
        ≡ n / 2 ^ 8 * 2 ^ 8 =
      bit_or-beside 16 (n / 2 ^ 16 % 2 ^ 8) (n / 2 ^ 8 % 2 ^ 8 * 2 ^ 8) (omega arith)
      ∙ omega arith in
    rw high (bit_or-beside 8 (n / 2 ^ 8) (n % 2 ^ 8) (omega arith) ∙ omega arith)

l2_by_index-index_of : (l1 l2 : ℕ) → l2 < 2 ^ 16 → l2_by_index (index_of l1 l2) ≡ l2
unfolding l2_by_index index_of
l2_by_index-index_of l1 l2 h = two_bytes l2 h

l1_by_index-index_of : (l1 l2 : ℕ) → l1 < 2 ^ 8 → l1_by_index (index_of l1 l2) ≡ l1
unfolding l1_by_index index_of
l1_by_index-index_of l1 l2 h = omega arith

-- Only three bytes of 0 make the index that stands for NULL.
index_is_zero-page :
    (l1 l2 : ℕ) → l1 < 2 ^ 8 → l2 < 2 ^ 16 → 0 < l1 + l2 → index_is_zero (index_of l1 l2) ≡ false
unfolding index_is_zero index_of
index_is_zero-page l1 l2 h1 h2 pos =
    let two = bit_or-ge (l1 % 2 ^ 8) (l2 / 2 ^ 8 % 2 ^ 8) in
    let all = bit_or-ge (bit_or (l1 % 2 ^ 8) (l2 / 2 ^ 8 % 2 ^ 8)) (l2 % 2 ^ 8) in
    let positive : 0 < bit_or (bit_or (l1 % 2 ^ 8) (l2 / 2 ^ 8 % 2 ^ 8)) (l2 % 2 ^ 8) =
      omega (arith, two, all) in
    ground (arith, positive)

-- The index of a page names its span record, except for the first page of the heap, whose index
-- stands for NULL.
pub span_by_index-index_of :
    (l1 l2 : ℕ)
    → l1 < 2 ^ 8
    → l2 < 2 ^ 16
    → 0 < l1 + l2
    → span_by_index (index_of l1 l2) ≡ span_by_l1l2 l1 l2
unfolding span_by_index
span_by_index-index_of l1 l2 h1 h2 pos = rw (
  index_is_zero-page l1 l2 h1 h2 pos,
  l1_by_index-index_of l1 l2 h1,
  l2_by_index-index_of l1 l2 h2,
)

-- In a heap of 2 ^ 36 bytes, the two levels of a page are read back from the page's address.
pub page-of-addr :
    (h : Heap) (l1 l2 : ℕ)
    → h.start + 2 ^ 36 ≤ 2 ^ 64
    → l1 < 2 ^ 8
    → l2 < 2 ^ 16
    → (l1_by_addr h (l1l2_to_addr h l1 l2) ≡ l1) × (l2_by_addr h (l1l2_to_addr h l1 l2) ≡ l2)
unfolding l1_by_addr l2_by_addr l1l2_to_addr heap_offset
page-of-addr h l1 l2 fits h1 h2 =
    let off : ((l1 * 2 ^ 28 + l2 * 2 ^ 12 + h.start) % 2 ^ 64 + 2 ^ 64 - h.start) % 2 ^ 64
        ≡ l1 * 2 ^ 28 + l2 * 2 ^ 12 =
      omega arith in
    (rw off (omega arith), rw (off, bit_and-mask 28 (l1 * 2 ^ 28 + l2 * 2 ^ 12)) (omega arith))

-- In a heap of 2 ^ 36 bytes, for every page but the first, whose index stands for NULL, the two
-- levels of the page are read back from its address, and its index names its span record.
pub page_names :
    (h : Heap) (l1 l2 : ℕ)
    → h.start + 2 ^ 36 ≤ 2 ^ 64
    → l1 < 2 ^ 8
    → l2 < 2 ^ 16
    → 0 < l1 + l2
    → (l1_by_addr h (l1l2_to_addr h l1 l2) ≡ l1)
      × (l2_by_addr h (l1l2_to_addr h l1 l2) ≡ l2)
      × (span_by_index (index_of l1 l2) ≡ span_by_l1l2 l1 l2)
page_names h l1 l2 fits h1 h2 pos =
    let (upper, lower) = page-of-addr h l1 l2 fits h1 h2 in
    (upper, lower, span_by_index-index_of l1 l2 h1 h2 pos)
