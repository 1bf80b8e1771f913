-- ===== src/Timer/Put.antt =====
-- csp_timer_heap_put and csp_timer_cancel of src/timer.c.
use shiyanhui_libcsp.Base.{
  ◌+◌, ◌*◌, ◌/◌, ◌%◌, ◌^◌, ◌<◌, ◌≡◌, ◌≢◌, ◌⊎◌, inl, inr, refl, true, false, some, none, arith, ◌==◌,
  update, ne→==, eq→==, ltb-false, lt→ltb, Bool, Bool-cases, subst, sym,
}
use shiyanhui_libcsp.Timer.{Ptr, Slots, Heap, shift_up, append, put, cancel, del, invalid}
use shiyanhui_libcsp.Timer.Order.{IsHeap, Among}
use shiyanhui_libcsp.Timer.Up.{UpInv, shift_up-IsHeap}
use shiyanhui_libcsp.Timer.Del.{Deleted, del-Deleted}

-- The heap with one more process.
pub record Added (h : Heap) (proc : Ptr) (g : Heap) : Type 0 where
  pub heap : IsHeap g.len g.slots
  pub more : g.len ≡ h.len + 1
  pub here : Among g.len g.slots proc
  pub kept : (q : Ptr) → Among h.len h.slots q → Among g.len g.slots q
  pub back : (q : Ptr) → Among g.len g.slots q → (q ≡ proc) ⊎ Among h.len h.slots q
  pub due : g.slots.when ≡ h.slots.when
  pub marked : g.tokens proc ≡ h.token
  pub fresh : g.token ≡ (h.token + 1) % 2 ^ 64

abbrev behind : Heap → Ptr → Slots
behind h proc = record h.slots {
  procs = update h.slots.procs h.len proc;
  idx = update h.slots.idx proc h.len;
}

behind-UpInv :
    (h : Heap) (proc : Ptr)
    → IsHeap h.len h.slots
    → ¬ Among h.len h.slots proc
    → UpInv (h.len + 1) (behind h proc) h.len
behind-UpInv h proc v new = record {
  inside = omega arith;
  placed = λ i p. elim (Bool-cases (h.len == i)) [
    | inl last ↦ ground arith
    | inr old ↦
        let lt : i < h.len = ground arith in
        let other : proc ≢ h.slots.procs i =
          λ e. new (ground (arith, v.placed i), ground (arith, v.placed i)) in
        rw (old, ne→== proc (h.slots.procs i) other) (v.placed i lt)
  ];
  edges = λ c p q ne. ground (arith, v.ordered c);
  bridged = λ c q p r e. absurd (omega arith);
}

-- `csp_timer_heap_put` of a process that is not in the heap, where the block at `procs` has room and
-- the heap need not grow: exactly this process is added, with the next token, and the heap is in
-- order.
pub put-Added :
    (h : Heap) (proc : Ptr)
    → IsHeap h.len h.slots
    → ¬ Among h.len h.slots proc
    → h.len < h.cap
    → h.cap ≡ h.room
    → (g : Heap) × (put h proc ≡ some g) × Added h proc g
unfolding put append
put-Added h proc v new space whole =
    let (heap, same) =
      shift_up-IsHeap (h.len + 1) (behind h proc) h.len (behind-UpInv h proc v new) in
    (
      record h {
        len = h.len + 1;
        slots = shift_up (behind h proc) h.len;
        tokens = update h.tokens proc h.token;
        token = (h.token + 1) % 2 ^ 64;
      },
      rw (ne→== h.len h.cap (omega arith), lt→ltb h.len h.room (omega arith)),
      record {
        heap = heap;
        more = refl;
        here = same.among proc (ground arith);
        kept = λ q a. same.among q (old q a);
        back = λ q a. new_or_old q (same.back q a);
        due = same.due;
        marked = ground arith;
        fresh = refl;
      },
    )
  where
    old : (q : Ptr) → Among h.len h.slots q → Among (h.len + 1) (behind h proc) q
    old q a =
        let other : proc ≢ q = λ e. new (subst (Among h.len h.slots) (sym e) a) in ground arith

    new_or_old :
        (q : Ptr) → Among (h.len + 1) (behind h proc) q → (q ≡ proc) ⊎ Among h.len h.slots q
    new_or_old q a = elim (Bool-cases (proc == q)) [
      | inl is ↦ inl (ground arith)
      | inr other ↦ inr (ground arith)
    ]

-- The growth asks realloc for `cap` bytes and not for `cap` pointers: a `csp_timer_heap_put` at a
-- full heap writes behind the end of the block, whatever the heap holds.
pub put-full : (h : Heap) (proc : Ptr) → h.len ≡ h.cap → put h proc ≡ none
unfolding put append
put-full h proc full = rw (eq→== h.len h.cap full, ltb-false h.len (h.cap * 2 / 8) (omega arith))

pub tokens-del : (h : Heap) (proc : Ptr) → (del h proc).tokens ≡ h.tokens
unfolding del
tokens-del h proc = ground arith

-- `csp_timer_cancel` with the token that the process holds, where the compare-exchange does not fail
-- for no reason, takes exactly this process out of the heap. The token then serves no second call.
pub cancel-Deleted :
    (h : Heap) (proc : Ptr)
    → IsHeap h.len h.slots
    → Among h.len h.slots proc
    → h.tokens proc < invalid
    → let (b, g) = cancel false h proc (h.tokens proc) in
      (b ≡ true)
      × Deleted h proc g
      × ((weak : Bool) → cancel weak g proc (h.tokens proc) ≡ (false, g))
unfolding cancel
cancel-Deleted h proc v a small =
    let h1 = record h { tokens = update h.tokens proc invalid } in
    let d = del-Deleted h1 proc v a in
    let now : (del h1 proc).tokens proc ≡ invalid = ground (arith, tokens-del h1 proc) in
    rw (eq→== (h.tokens proc) (h.tokens proc) refl) (
      refl,
      record { heap = d.heap; others = d.others; fewer = d.fewer },
      λ weak. rw (now, ne→== invalid (h.tokens proc) (λ e. omega arith)),
    )
