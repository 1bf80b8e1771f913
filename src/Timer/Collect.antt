-- ===== src/Timer/Collect.antt =====
-- The processes that csp_timer_heap_get of src/timer.c takes from the first heaps.
use shiyanhui_libcsp.Base.{
  ℕ, zero, suc, ◌+◌, ◌≤◌, ◌<◌, ◌≡◌, refl, sym, ap, ◌∙◌, List, [], ◌++◌, true, false, ◌&&◌, arith,
  ◌==◌, ltb, leb, has, has-append, Distinct, length, length-append, total, update, inl, inr,
  Bool-cases,
}
use shiyanhui_libcsp.Runq.{Ptr}
use shiyanhui_libcsp.Timer.{Heap, key, del, expire, get, invalid}
use shiyanhui_libcsp.Timer.Order.{IsHeap}
use shiyanhui_libcsp.Timer.Del.{del-Deleted}
use shiyanhui_libcsp.Timer.Poll.{expire-Expired}

-- The list that a heap gives has each process once, and the heap has so many fewer.
expire-Distinct :
    (fuel : ℕ) (h : Heap) (now : ℕ)
    → h.len < fuel
    → IsHeap h.len h.slots
    → Distinct (expire fuel h now).0
      × (length (expire fuel h now).0 + (expire fuel h now).1.len ≡ h.len)
unfolding expire
expire-Distinct zero h now f v = absurd (omega arith)
expire-Distinct (suc fuel) h now f v = elim (Bool-cases (ltb 0 h.len && leb (key h.slots 0) now)) [
  | inl first ↦
      let top = h.slots.procs 0 in
      let pos : 0 < h.len = ground arith in
      let d = del-Deleted h top v (ground (arith, v.placed 0)) in
      let g : Heap = record (del h top) { tokens = update (del h top).tokens top invalid } in
      let fewer : g.len < fuel = omega (arith, d.fewer) in
      let x = expire-Expired fuel g now fewer d.heap in
      let (once, count) = expire-Distinct fuel g now fewer d.heap in
      let gone : has top (expire fuel g now).0 ≡ false =
        elim (Bool-cases (has top (expire fuel g now).0)) [
          | inl m ↦ absurd ((d.others.back top (x.taken top m).0).1 refl)
          | inr n ↦ n
        ] in
      rw first ((gone, once), omega (arith, count, d.fewer))
  | inr later ↦ rw later (tt, omega arith)
]

pub get-Distinct : (h : Heap) (now : ℕ) → IsHeap h.len h.slots → Distinct (get h now).0
unfolding get
get-Distinct h now v = (expire-Distinct (h.len + 1) h now (omega arith) v).0

-- What the first `n` heaps give.
abbrev pub collected : (n : ℕ) → (now : ℕ → ℕ) → (ℕ → Heap) → List Ptr
collected zero now heaps = []
collected (suc n) now heaps = collected n now heaps ++ (get (heaps n) (now n)).0

pub collected-length :
    (n : ℕ) (now : ℕ → ℕ) (heaps : ℕ → Heap)
    → ((k : ℕ) → k < n → IsHeap (heaps k).len (heaps k).slots)
    → length (collected n now heaps) ≤ total n (λ k. (heaps k).len)
unfolding get
collected-length zero now heaps v = omega arith
collected-length (suc n) now heaps v =
    let rest = collected-length n now heaps (λ k b. v k (omega arith)) in
    let (once, count) =
      expire-Distinct ((heaps n).len + 1) (heaps n) (now n) (omega arith) (v n (omega arith)) in
    omega (arith, rest, count, length-append (collected n now heaps) (get (heaps n) (now n)).0)

-- A process on the list comes from one of the heaps.
pub collected-has :
    (n : ℕ) (now : ℕ → ℕ) (heaps : ℕ → Heap) (p : Ptr)
    → has p (collected n now heaps) ≡ true
    → (k : ℕ) × (k < n) × (has p (get (heaps k) (now k)).0 ≡ true)
collected-has zero now heaps p i = absurd (cc i)
collected-has (suc n) now heaps p i =
    let taken = (get (heaps n) (now n)).0 in
    let split = sym (has-append p (collected n now heaps) taken) ∙ i in
    elim (Bool-cases (has p taken)) [
      | inl here ↦ (n, omega arith, here)
      | inr before ↦
          let (k, below, found) = collected-has n now heaps p (ground arith) in
          (k, omega arith, found)
    ]

pub has-collected :
    (n : ℕ) (now : ℕ → ℕ) (heaps : ℕ → Heap) (p : Ptr) (k : ℕ)
    → k < n
    → has p (get (heaps k) (now k)).0 ≡ true
    → has p (collected n now heaps) ≡ true
has-collected zero now heaps p k below i = absurd (omega arith)
has-collected (suc n) now heaps p k below i =
    has-append p (collected n now heaps) (get (heaps n) (now n)).0 ∙ elim (Bool-cases (k == n)) [
      | inl here ↦
          let same : k ≡ n = ground arith in
          let now_in = ap (λ j. has p (get (heaps j) (now j)).0) (sym same) ∙ i in
          rw now_in (ground arith)
      | inr other ↦ rw (has-collected n now heaps p k (ground arith) i) refl
    ]
