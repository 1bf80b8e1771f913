-- ===== src/Timer/Down.antt =====
-- The loop of csp_timer_heap_del of src/timer.c, which shifts an entry down.
use shiyanhui_libcsp.Base.{
  ℕ, zero, suc, ◌+◌, ◌*◌, ◌≤◌, ◌<◌, ◌≢◌, ◌≡◌, ◌⊎◌, arith, ltb, Bool-cases, inl, inr,
}
use shiyanhui_libcsp.Timer.{Slots, key, lte, swap, father, son, down_loop}
use shiyanhui_libcsp.Timer.Order.{
  Placed, IsHeap, Same, Same-refl, Same-trans, key-swap, swap-Placed, swap-Same,
}

-- Only the edges below `i` may be out of order.
pub record DownInv (n : ℕ) (s : Slots) (i : ℕ) : Type 0 where
  pub placed : Placed n s
  pub edges : (c : ℕ) → 0 < c → c < n → father c ≢ i → key s (father c) ≤ key s c
  pub bridged : (c : ℕ) → 0 < i → 0 < c → c < n → father c ≡ i → key s (father i) ≤ key s c

-- The son that the loop picks is the one due first.
record IsLeastSon (n : ℕ) (s : Slots) (i m : ℕ) : Type 0 where
  inside : m < n
  child : (m ≡ 2 * i + 1) ⊎ (m ≡ 2 * i + 2)
  least : (c : ℕ) → 0 < c → c < n → father c ≡ i → key s m ≤ key s c

son-IsLeastSon : (n : ℕ) (s : Slots) (i : ℕ) → 2 * i + 1 < n → IsLeastSon n s i (son n s i)
unfolding son
son-IsLeastSon n s i h = record {
  inside = ground arith;
  child = ground arith;
  least =
      λ c p q e. elim (sons c p e) [ inl l ↦ rw l (ground arith) | inr r ↦ rw r (ground arith) ];
}
  where
    sons : (c : ℕ) → 0 < c → father c ≡ i → (c ≡ 2 * i + 1) ⊎ (c ≡ 2 * i + 2)
    sons c p e = ground arith

swap-DownInv :
    (n : ℕ) (s : Slots) (i m : ℕ)
    → DownInv n s i
    → i < n
    → IsLeastSon n s i m
    → key s m < key s i
    → DownInv n (swap s i m) m
swap-DownInv n s i m v hi l below =
    let k = key-swap s i m in
    let up : father m ≡ i = ground (arith, l.child) in
    let gt : i < m = ground (arith, l.child) in
    record {
      placed = swap-Placed n s i m hi l.inside (λ e. omega arith) v.placed;
      edges = λ c p h ne.
          ground (arith, k c, k (father c), v.edges c, l.least c, v.bridged m, v.bridged c);
      bridged = λ c p q h e. ground (arith, k c, k (father m), v.edges c, l.least c);
    }

pub down_loop-IsHeap :
    (fuel n : ℕ) (s : Slots) (i : ℕ)
    → i < n
    → n < i + fuel
    → DownInv n s i
    → IsHeap n (down_loop fuel n s i) × Same n s (down_loop fuel n s i)
unfolding down_loop
down_loop-IsHeap zero n s i hi f v = absurd (omega arith)
down_loop-IsHeap (suc fuel) n s i hi f v = elim (Bool-cases (ltb (2 * i + 1) n)) [
  | inl more ↦
      let l = son-IsLeastSon n s i (ground arith) in
      let gt : i < son n s i = ground (arith, l.child) in
      elim (Bool-cases (lte s i (son n s i))) [
        | inl settled ↦
            rw (more, settled)
              (
                record {
                  placed = v.placed;
                  ordered = λ c p h. ground (arith, v.edges c, l.least c);
                },
                Same-refl n s,
              )
        | inr above ↦
            let (heap, same) =
              down_loop-IsHeap fuel n (swap s i (son n s i)) (son n s i) l.inside (omega arith)
                (swap-DownInv n s i (son n s i) v hi l (ground arith)) in
            let once = swap-Same n s i (son n s i) hi l.inside (λ e. omega arith) v.placed in
            rw (more, above) (heap, Same-trans once same)
      ]
  | inr leaf ↦
      rw leaf
        (record { placed = v.placed; ordered = λ c p h. ground (arith, v.edges c) }, Same-refl n s)
]
