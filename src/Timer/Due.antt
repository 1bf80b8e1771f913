-- ===== src/Timer/Due.antt =====
-- Which processes are due in some heap of src/timer.c.
use shiyanhui_libcsp.Base.{
  ℕ, zero, suc, ◌<◌, ◌≡◌, sym, ap, ◌∙◌, inl, inr, Bool, true, false, ◌&&◌, ◌||◌, Bool-cases, ◌==◌,
  ltb, leb, arith, has,
}
use shiyanhui_libcsp.Runq.{Links}
use shiyanhui_libcsp.Timer.{Ptr, Heap}
use shiyanhui_libcsp.Timer.Heaps.{Sweep}
use shiyanhui_libcsp.Timer.Sweep.{Gathered}

-- Whether a heap has a process that is due at `now`.
abbrev pub is_due : Heap → (now : ℕ) → Ptr → Bool
is_due h now p =
    ltb (h.slots.idx p) h.len && (h.slots.procs (h.slots.idx p) == p) && leb (h.slots.when p) now

-- Whether one of the first `n` heaps has.
abbrev pub due_in : (n : ℕ) → (now : ℕ → ℕ) → (ℕ → Heap) → Ptr → Bool
due_in zero now heaps p = false
due_in (suc n) now heaps p = due_in n now heaps p || is_due (heaps n) (now n) p

due_in-true :
    (n : ℕ) (now : ℕ → ℕ) (heaps : ℕ → Heap) (p : Ptr)
    → due_in n now heaps p ≡ true
    → (k : ℕ) × (k < n) × (is_due (heaps k) (now k) p ≡ true)
due_in-true zero now heaps p i = absurd (cc i)
due_in-true (suc n) now heaps p i = elim (Bool-cases (is_due (heaps n) (now n) p)) [
  | inl here ↦ (n, omega arith, here)
  | inr other ↦
      let (k, below, found) = due_in-true n now heaps p (ground arith) in (k, omega arith, found)
]

due_in-false :
    (n : ℕ) (now : ℕ → ℕ) (heaps : ℕ → Heap) (p : Ptr) (k : ℕ)
    → due_in n now heaps p ≡ false
    → k < n
    → is_due (heaps k) (now k) p ≡ false
due_in-false zero now heaps p k out below = absurd (omega arith)
due_in-false (suc n) now heaps p k out below = elim (Bool-cases (k == n)) [
  | inl here ↦
      let same : k ≡ n = ground arith in ap (λ j. is_due (heaps j) (now j) p) same ∙ ground arith
  | inr other ↦ due_in-false n now heaps p k (ground arith) (ground arith)
]

-- The list of a poll has exactly the processes that are due.
pub Gathered-due_in :
    (len : ℕ) (now : ℕ → ℕ) (heaps : ℕ → Heap) (links : Links) (s : Sweep)
    (w : Gathered len now heaps links s) (p : Ptr)
    → has p w.listed ≡ due_in len now heaps p
Gathered-due_in len now heaps links s w p = elim (Bool-cases (has p w.listed)) [
  | inl found ↦
      let (k, below, (place, is), time) = w.only p found in
      elim (Bool-cases (due_in len now heaps p)) [
        | inl is_in ↦ found ∙ sym is_in
        | inr is_out ↦ absurd (
            let not_due = due_in-false len now heaps p k is_out below in
            ground (arith, not_due, place, is, time))
      ]
  | inr left_out ↦ elim (Bool-cases (due_in len now heaps p)) [
    | inl is_in ↦
        let (k, below, is) = due_in-true len now heaps p is_in in
        absurd (
          let found = w.due k p below (ground arith, ground arith) (ground arith) in
          cc (found, left_out))
    | inr is_out ↦ left_out ∙ sym is_out
  ]
]
