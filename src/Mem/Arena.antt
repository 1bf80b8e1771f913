-- ===== src/Mem/Arena.antt =====
-- csp_mem_arena_new and csp_mem_heap_init_l1 of src/mem.c. `none` is an exit of the program. Whether
-- mmap can give the address asked for is the parameter `mapped`.
use shiyanhui_libcsp.Base.{
  ℕ, zero, suc, ◌+◌, ◌-◌, ◌/◌, ◌%◌, ◌^◌, Bool, true, Option, none, some, [], ◌∷◌, ◌==◌, leb,
  if◌then◌else◌, update, ◌>>=◌,
}
use shiyanhui_libcsp.Mem.{
  index_zero, index_of, Heap, l1_by_addr, arena_size_exp, heap_size_exp, l2_num_exp,
}

-- `csp_mem_heap_init_l1`: new spans that know their indices, and an empty mailbox.
unfoldable pub init_l1 : (l1 : ℕ) → Heap → Heap
unfolding index_of
init_l1 l1 h = record h {
  metas = update h.metas l1 true;
  mailboxes = update h.mailboxes l1 [];
  taken_bits = update h.taken_bits l1 (λ i. 0);
  spans = λ p.
      if (p - 1) / 2 ^ l2_num_exp == l1
      then record {
        npages = index_zero;
        index = index_of l1 ((p - 1) % 2 ^ l2_num_exp);
        mt_pre = index_zero;
        mt_next = index_zero;
        fp_pre = index_zero;
        fp_next = index_zero;
      }
      else h.spans p;
}

unfoldable pub ensure_l1 : (l1 : ℕ) → Heap → Heap
unfolding init_l1
ensure_l1 l1 h = if h.metas l1 then h else init_l1 l1 h

-- The loop of `csp_mem_arena_new`, on fuel: the next arena that mmap gives.
unfoldable pub next_arena : ℕ → (mapped : ℕ → Bool) → Heap → Option (ℕ × Heap)
next_arena zero mapped h = none
next_arena (suc fuel) mapped h =
    let curr = (h.curr + 2 ^ arena_size_exp) % 2 ^ 64 in
    let h1 = record h { curr = curr } in
    let rest = next_arena fuel mapped h1 in
    if leb h.end_ curr then none else if mapped curr then some (curr, h1) else rest

-- `csp_mem_arena_new`; a heap has 2 ^ 12 arenas.
unfoldable pub arena_new : (mapped : ℕ → Bool) → Heap → Option (ℕ × Heap)
unfolding next_arena ensure_l1 l1_by_addr
arena_new mapped h = next_arena (2 ^ (heap_size_exp - arena_size_exp) + 1) mapped h >>= λ r.
    let h1 = ensure_l1 (l1_by_addr r.1 r.0) r.1 in
    some (r.0, record h1 { arenas = r.0 ∷ h1.arenas })
