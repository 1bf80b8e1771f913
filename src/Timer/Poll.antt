-- ===== src/Timer/Poll.antt =====
-- csp_timer_heap_get of src/timer.c: all expired timers, in order.
use shiyanhui_libcsp.Base.{
  ℕ, zero, suc, ◌+◌, ◌≤◌, ◌<◌, ◌≡◌, refl, true, false, ◌&&◌, List, [], ◌∷◌, arith, ltb, leb,
  Bool-cases, inl, inr, has, update, ◌∙◌, ◌==◌, ap, subst,
}
use shiyanhui_libcsp.Timer.{Ptr, Slots, Heap, key, father, del, expire, get, invalid}
use shiyanhui_libcsp.Timer.Order.{IsHeap, Among}
use shiyanhui_libcsp.Timer.Del.{Deleted, del-Deleted}
use shiyanhui_libcsp.Timer.Put.{tokens-del}

-- The root is due first.
root-le : (fuel n : ℕ) (s : Slots) (i : ℕ) → i < fuel → i < n → IsHeap n s → key s 0 ≤ key s i
root-le zero n s i f h v = absurd (omega arith)
root-le (suc fuel) n s i f h v = elim (Bool-cases (ltb 0 i)) [
  | inl pos ↦
      let up : 0 < i = ground arith in
      let above = root-le fuel n s (father i) (omega arith) (omega arith) v in
      omega (arith, v.ordered i up h)
  | inr root ↦ let same : i ≡ 0 = ground arith in rw same (omega arith)
]

root_first : (n : ℕ) (s : Slots) (q : Ptr) → IsHeap n s → Among n s q → key s 0 ≤ s.when q
root_first n s q v a =
    let least = root-le (s.idx q + 1) n s (s.idx q) (omega arith) a.0 v in
    subst (λ p. key s 0 ≤ s.when p) a.1 least

-- Every process of the list is due at `t` or later, and none before its predecessor.
abbrev pub SortedFrom : (Ptr → ℕ) → ℕ → List Ptr → Type 0
SortedFrom due t [] = Unit {0}
SortedFrom due t (p ∷ ps) = (t ≤ due p) × SortedFrom due (due p) ps

pub record Expired (h : Heap) (now : ℕ) (r : List Ptr × Heap) : Type 0 where
  pub heap : IsHeap r.1.len r.1.slots
  pub taken : (q : Ptr) → has q r.0 ≡ true → Among h.len h.slots q × (h.slots.when q ≤ now)
  pub due : (q : Ptr) → Among h.len h.slots q → h.slots.when q ≤ now → has q r.0 ≡ true
  pub left : (q : Ptr) → Among r.1.len r.1.slots q → Among h.len h.slots q × (now < h.slots.when q)
  pub stays : (q : Ptr) → Among h.len h.slots q → now < h.slots.when q → Among r.1.len r.1.slots q
  pub sorted :
      (t : ℕ)
      → ((q : Ptr) → Among h.len h.slots q → t ≤ h.slots.when q)
      → SortedFrom h.slots.when t r.0
  pub voided : (q : Ptr) → has q r.0 ≡ true → r.1.tokens q ≡ invalid
  pub when : r.1.slots.when ≡ h.slots.when
  pub others : (q : Ptr) → has q r.0 ≡ false → r.1.tokens q ≡ h.tokens q

-- Nothing is due if the root is not.
none_due :
    (h : Heap) (now : ℕ)
    → IsHeap h.len h.slots
    → (ltb 0 h.len && leb (key h.slots 0) now) ≡ false
    → Expired h now ([], h)
none_due h now v e = record {
  heap = v;
  taken = λ q m. cc;
  due = λ q a d. absurd (let least = root_first h.len h.slots q v a in ground arith);
  left = λ q a. (a, let least = root_first h.len h.slots q v a in ground arith);
  stays = λ q a l. a;
  sorted = λ t b. tt;
  voided = λ q m. cc;
  when = refl;
  others = λ q m. refl;
}

-- The root is taken out, and the loop goes on.
top_due :
    (h : Heap) (now : ℕ) (g : Heap) (r : List Ptr × Heap)
    → IsHeap h.len h.slots
    → 0 < h.len
    → key h.slots 0 ≤ now
    → Deleted h (h.slots.procs 0) g
    → g.tokens ≡ h.tokens
    → Expired (record g { tokens = update g.tokens (h.slots.procs 0) invalid }) now r
    → Expired h now (h.slots.procs 0 ∷ r.0, r.1)
top_due h now g r v pos early d tok x = record {
  heap = x.heap;
  taken = λ q m. elim (Bool-cases (top == q)) [
    | inl is ↦ let same : top ≡ q = ground arith in rw (← same) (at_root, early)
    | inr other ↦
        let (a, t) = x.taken q (ground arith) in ((d.others.back q a).0, omega (arith, due_of q))
  ];
  due = λ q a t. elim (Bool-cases (top == q)) [
    | inl is ↦ rw is
    | inr other ↦
        let b = d.others.kept q a (λ e. ground arith) in
        rw (other, has) (x.due q b (omega (arith, due_of q)))
  ];
  left = λ q a. let (b, t) = x.left q a in ((d.others.back q b).0, omega (arith, due_of q));
  stays =
      λ q a t. x.stays q (d.others.kept q a (λ e. absurd (late q e t))) (omega (arith, due_of q));
  sorted = λ t first. (
    first top at_root,
    subst (λ due. SortedFrom due (h.slots.when top) r.0) d.others.due
        (x.sorted (h.slots.when top)
          (λ q a. omega (arith, due_of q, root_first h.len h.slots q v (d.others.back q a).0))),
  );
  voided = λ q m. elim (Bool-cases (top == q)) [
    | inl is ↦ let same : top ≡ q = ground arith in rw (← same) (x.others top gone ∙ ground arith)
    | inr other ↦ x.voided q (ground arith)
  ];
  when = x.when ∙ d.others.due;
  others = λ q m. x.others q (ground arith) ∙ ground (arith, ap (λ (f : Ptr → ℕ). f q) tok);
}
  where
    top : Ptr
    top = h.slots.procs 0

    due_of : (q : Ptr) → g.slots.when q ≡ h.slots.when q
    due_of q = ap (λ (f : Ptr → ℕ). f q) d.others.due

    at_root : Among h.len h.slots top
    at_root = ground (arith, v.placed 0)

    late : (q : Ptr) → q ≡ top → now < h.slots.when q → ⊥
    late q e t =
        let t' : now < h.slots.when top = subst (λ p. now < h.slots.when p) e t in omega arith

    gone : has top r.0 ≡ false
    gone = elim (Bool-cases (has top r.0)) [
      | inl m ↦ absurd ((d.others.back top (x.taken top m).0).1 refl)
      | inr n ↦ n
    ]

pub expire-Expired :
    (fuel : ℕ) (h : Heap) (now : ℕ)
    → h.len < fuel
    → IsHeap h.len h.slots
    → Expired h now (expire fuel h now)
unfolding expire
expire-Expired zero h now f v = absurd (omega arith)
expire-Expired (suc fuel) h now f v = elim (Bool-cases (ltb 0 h.len && leb (key h.slots 0) now)) [
  | inl first ↦
      let top = h.slots.procs 0 in
      let pos : 0 < h.len = ground arith in
      let d = del-Deleted h top v (ground (arith, v.placed 0)) in
      let g = del h top in
      let rest =
        expire-Expired fuel (record g { tokens = update g.tokens top invalid }) now
          (omega (arith, d.fewer)) d.heap in
      rw first (top_due h now g _ v pos (ground arith) d (tokens-del h top) rest)
  | inr later ↦ rw later (none_due h now v later)
]

-- `csp_timer_heap_get` ends, hands out exactly the timers that are due at `now`, in the order in
-- which they are due, makes their tokens invalid and no others, and leaves the rest in order.
pub get-Expired :
    (h : Heap) (now : ℕ)
    → IsHeap h.len h.slots
    → Expired h now (get h now) × SortedFrom h.slots.when 0 (get h now).0
unfolding get
get-Expired h now v =
    let x = expire-Expired (h.len + 1) h now (omega arith) v in (x, x.sorted 0 (λ q a. omega arith))
