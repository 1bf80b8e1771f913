-- ===== src/Timer/Del.antt =====
-- csp_timer_heap_del of src/timer.c.
use shiyanhui_libcsp.Base.{
  ℕ, suc, ◌+◌, ◌-◌, ◌≤◌, ◌<◌, ◌≢◌, ◌≡◌, refl, ◌&&◌, arith, ltb, Bool-cases, inl, inr, ◌==◌, update,
  ◌∙◌, subst, subst₂, sym,
}
use shiyanhui_libcsp.Timer.{Ptr, Slots, Heap, key, lte, father, refill, del}
use shiyanhui_libcsp.Timer.Order.{Placed, IsHeap, Among, Same}
use shiyanhui_libcsp.Timer.Up.{UpInv, shift_up-IsHeap}
use shiyanhui_libcsp.Timer.Down.{DownInv, down_loop-IsHeap}

-- The first `n` entries of `t` hold the processes of the first `m` of `s` but for `p`, due as before.
pub record Without (m n : ℕ) (s t : Slots) (p : Ptr) : Type 0 where
  pub kept : (q : Ptr) → Among m s q → q ≢ p → Among n t q
  pub back : (q : Ptr) → Among n t q → Among m s q × (q ≢ p)
  pub due : t.when ≡ s.when

pub Without-Same :
    {m n : ℕ} {s t u : Slots} {p : Ptr} → Without m n s t p → Same n t u → Without m n s u p
Without-Same w e = record {
  kept = λ q a ne. e.among q (w.kept q a ne);
  back = λ q a. w.back q (e.back q a);
  due = e.due ∙ w.due;
}

-- The last process stands in the place of the one that goes.
abbrev filled : ℕ → Slots → ℕ → Slots
filled len s i = record s {
  procs = update s.procs i (s.procs len);
  idx = update s.idx (s.procs len) i;
}

module _ (len : ℕ) (s : Slots) (i : ℕ) (hi : i < len) (v : IsHeap (suc len) s) where
  filled-Placed : Placed len (filled len s i)
  filled-Placed k h = ground (arith, v.placed k, v.placed len)

  filled-Without : Without (suc len) len s (filled len s i) (s.procs i)
  filled-Without = record {
    kept = λ q a ne. ground (arith, v.placed len, v.placed i);
    back = λ q a. ground (arith, v.placed len, v.placed i, v.placed (s.idx q));
    due = refl;
  }

  filled-UpInv :
      0 < i
      → key (filled len s i) i ≤ key (filled len s i) (father i)
      → UpInv len (filled len s i) i
  filled-UpInv pos le = record {
    inside = hi;
    placed = filled-Placed;
    edges = λ c p h ne. ground (arith, v.ordered c, v.ordered i);
    bridged = λ c q p h e. ground (arith, v.ordered c, v.ordered i);
  }

  filled-DownInv :
      (0 < i → key (filled len s i) (father i) ≤ key (filled len s i) i)
      → DownInv len (filled len s i) i
  filled-DownInv le = record {
    placed = filled-Placed;
    edges = λ c p h ne. ground (arith, v.ordered c, le);
    bridged = λ c q p h e. ground (arith, v.ordered c, v.ordered i);
  }

  refill-IsHeap : IsHeap len (refill len s i) × Without (suc len) len s (refill len s i) (s.procs i)
  unfolding refill
  refill-IsHeap = elim (Bool-cases (ltb 0 i && lte (filled len s i) i (father i))) [
    | inl up ↦
        let (heap, same) =
          shift_up-IsHeap len (filled len s i) i (filled-UpInv (ground arith) (ground arith)) in
        rw up (heap, Without-Same filled-Without same)
    | inr down ↦
        let (heap, same) =
          down_loop-IsHeap (len + 1) len (filled len s i) i hi (omega arith)
            (filled-DownInv (λ pos. ground arith)) in
        rw down (heap, Without-Same filled-Without same)
  ]

pub record Deleted (h : Heap) (proc : Ptr) (g : Heap) : Type 0 where
  pub heap : IsHeap g.len g.slots
  pub others : Without h.len g.len h.slots g.slots proc
  pub fewer : g.len + 1 ≡ h.len

-- `csp_timer_heap_del` of a process in the heap takes out just this process, and the heap is in
-- order again.
pub del-Deleted :
    (h : Heap) (proc : Ptr)
    → IsHeap h.len h.slots
    → Among h.len h.slots proc
    → Deleted h proc (del h proc)
unfolding del
del-Deleted h proc v a =
    let len = h.len - 1 in
    let e : h.len ≡ suc len = omega arith in
    let w : IsHeap (suc len) h.slots = subst (λ n. IsHeap n h.slots) e v in
    elim (Bool-cases (h.slots.idx proc == len)) [
      | inl last ↦ rw last (record {
        heap = record {
          placed = λ i p. v.placed i (omega arith);
          ordered = λ c p q. v.ordered c p (omega arith);
        };
        others = record { kept = λ q b ne. ground arith; back = λ q b. ground arith; due = refl };
        fewer = omega arith;
      })
      | inr inner ↦
          let (heap, others) = refill-IsHeap len h.slots (h.slots.idx proc) (ground arith) w in
          rw inner
            (record { heap = heap; others = moved (a.1) (sym e) others; fewer = omega arith })
    ]
  where
    moved :
        {p : Ptr} {m n : ℕ} {t : Slots}
        → p ≡ proc
        → m ≡ h.len
        → Without m n h.slots t p
        → Without h.len n h.slots t proc
    moved {n} {t} ep em w = subst₂ (λ m p. Without m n h.slots t p) em ep w
