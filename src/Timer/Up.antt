-- ===== src/Timer/Up.antt =====
-- csp_timer_heap_shift_up of src/timer.c.
use shiyanhui_libcsp.Base.{ℕ, zero, suc, ◌+◌, ◌≤◌, ◌<◌, ◌≢◌, ◌≡◌, arith, ltb, Bool-cases, inl, inr}
use shiyanhui_libcsp.Timer.{Slots, key, lte, swap, father, up_loop, shift_up}
use shiyanhui_libcsp.Timer.Order.{
  Placed, IsHeap, Same, Same-refl, Same-trans, key-swap, swap-Placed, swap-Same,
}

-- Only the edge above `i` may be out of order.
pub record UpInv (n : ℕ) (s : Slots) (i : ℕ) : Type 0 where
  pub inside : i < n
  pub placed : Placed n s
  pub edges : (c : ℕ) → 0 < c → c < n → c ≢ i → key s (father c) ≤ key s c
  pub bridged : (c : ℕ) → 0 < i → 0 < c → c < n → father c ≡ i → key s (father i) ≤ key s c

swap-UpInv :
    (n : ℕ) (s : Slots) (i : ℕ)
    → UpInv n s i
    → 0 < i
    → key s i < key s (father i)
    → UpInv n (swap s i (father i)) (father i)
swap-UpInv n s i v pos below =
    let k = key-swap s i (father i) in
    record {
      inside = omega (arith, v.inside);
      placed =
          swap-Placed n s i (father i) v.inside (omega (arith, v.inside)) (λ e. omega arith)
            v.placed;
      edges = λ c p h ne.
          ground (arith, k c, k (father c), v.edges c, v.edges i, v.bridged c, v.edges (father i));
      bridged = λ c p q h e.
          ground (arith, k c, k (father (father i)), v.edges c, v.edges (father i), v.bridged c);
    }

up_loop-IsHeap :
    (fuel n : ℕ) (s : Slots) (i : ℕ)
    → i < fuel
    → UpInv n s i
    → IsHeap n (up_loop fuel s i) × Same n s (up_loop fuel s i)
unfolding up_loop
up_loop-IsHeap zero n s i f v = absurd (omega arith)
up_loop-IsHeap (suc fuel) n s i f v = elim (Bool-cases (ltb 0 i)) [
  | inl pos ↦ elim (Bool-cases (lte s (father i) i)) [
    | inl settled ↦
        rw (pos, settled)
          (
            record { placed = v.placed; ordered = λ c p h. ground (arith, v.edges c) },
            Same-refl n s,
          )
    | inr above ↦
        let up : 0 < i = ground arith in
        let below : key s i < key s (father i) = ground arith in
        let inside : father i < n = omega (arith, v.inside) in
        let (heap, same) =
          up_loop-IsHeap fuel n (swap s i (father i)) (father i) (omega arith)
            (swap-UpInv n s i v up below) in
        let once = swap-Same n s i (father i) v.inside inside (λ e. omega arith) v.placed in
        rw (pos, above) (heap, Same-trans once same)
  ]
  | inr root ↦
      rw root
        (record { placed = v.placed; ordered = λ c p h. ground (arith, v.edges c) }, Same-refl n s)
]

-- `csp_timer_heap_shift_up` puts the heap in order if only the edge above `i` was out of order, and
-- keeps the processes.
pub shift_up-IsHeap :
    (n : ℕ) (s : Slots) (i : ℕ) → UpInv n s i → IsHeap n (shift_up s i) × Same n s (shift_up s i)
unfolding shift_up
shift_up-IsHeap n s i v = up_loop-IsHeap (i + 1) n s i (omega arith) v
