-- ===== src/Timer/Order.antt =====
-- The invariant of the timer heap of src/timer.c, and what one swap does to it.
use shiyanhui_libcsp.Base.{ℕ, ◌≤◌, ◌<◌, ◌≡◌, ◌≢◌, refl, arith, ◌==◌, if◌then◌else◌, ◌∙◌}
use shiyanhui_libcsp.Timer.{Ptr, Slots, key, swap, father}

-- Every process in the array knows where it stands.
abbrev pub Placed : ℕ → Slots → Type 0
Placed n s = (i : ℕ) → i < n → s.idx (s.procs i) ≡ i

-- No process is due before its father.
abbrev pub Ordered : ℕ → Slots → Type 0
Ordered n s = (c : ℕ) → 0 < c → c < n → key s (father c) ≤ key s c

-- `p` is among the first `n` entries.
abbrev pub Among : ℕ → Slots → Ptr → Type 0
Among n s p = (s.idx p < n) × (s.procs (s.idx p) ≡ p)

pub record IsHeap (n : ℕ) (s : Slots) : Type 0 where
  pub placed : Placed n s
  pub ordered : Ordered n s

-- The same processes stand in the first `n` entries, due when they were.
pub record Same (n : ℕ) (s t : Slots) : Type 0 where
  pub among : (p : Ptr) → Among n s p → Among n t p
  pub back : (p : Ptr) → Among n t p → Among n s p
  pub due : t.when ≡ s.when

pub Same-refl : (n : ℕ) (s : Slots) → Same n s s
Same-refl n s = record { among = λ p a. a; back = λ p a. a; due = refl }

pub Same-trans : {n : ℕ} {s t u : Slots} → Same n s t → Same n t u → Same n s u
Same-trans a b = record {
  among = λ p m. b.among p (a.among p m);
  back = λ p m. a.back p (b.back p m);
  due = b.due ∙ a.due;
}

pub key-swap :
    (s : Slots) (i j k : ℕ)
    → key (swap s i j) k ≡ (if j == k then key s i else if i == k then key s j else key s k)
unfolding swap
key-swap s i j k = ground arith

module _ (n : ℕ) (s : Slots) (i j : ℕ) (hi : i < n) (hj : j < n) (ne : i ≢ j) (v : Placed n s) where
  pub swap-Placed : Placed n (swap s i j)
  unfolding swap
  swap-Placed k h = ground (arith, v k h, v i hi, v j hj)

  pub swap-Same : Same n s (swap s i j)
  unfolding swap
  swap-Same = record {
    among = λ p a. ground (arith, v i hi, v j hj);
    back = λ p a. ground (arith, v i hi, v j hj);
    due = refl;
  }
