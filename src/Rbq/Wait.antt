-- ===== src/Rbq/Wait.antt =====
-- The operations of src/rbq.h that wait, push, pop, pushm and popm. A round of their loops runs with
-- no other thread in between; before round `i`, `others i` is what the other threads do to the queue.
-- The rounds are counted by fuel, and `weak i` says which compare-exchanges of round `i` fail for no
-- reason.
pub mod Popm
pub mod Round
pub mod Pushm
use shiyanhui_libcsp.Base.{
  ℕ, zero, suc, ◌+◌, ◌-◌, ◌/◌, ◌%◌, ◌^◌, Bool, true, false, List, [], ◌∷◌, ◌++◌, ◌==◌, ltb,
  if◌then◌else◌, length, Option, none, some,
}
use shiyanhui_libcsp.Rbq.Ptr.{add64, next_get}
use shiyanhui_libcsp.Rbq.{Rbq, readers_barr, push_at, pushm_at, pop_many, try_push, try_pop}

-- The variables of `pushm` between two rounds: `at` is the distance that the pointer `items` has
-- gone, `left` the size_t `n`.
pub record Pushing {ℓ} (A : Type ℓ) : Type ℓ where
  pub ring : Rbq A
  pub at : ℕ
  pub left : ℕ
  pub chunk : ℕ

module _ {ℓ} {A : Type ℓ} where
  -- `push`: a round does the steps of `try_push`, and another follows where that returns false.
  unfoldable pub push :
      (fuel : ℕ)
      → (weak : ℕ → Bool × Bool) → (others : ℕ → Rbq A → Rbq A) → Rbq A
      → A
      → Option (Rbq A)
  push zero weak others q item = none
  push (suc n) weak others q item =
      let (pushed, q1) = try_push (weak 0).0 (weak 0).1 (others 0 q) item in
      let rest = push n (λ i. weak (i + 1)) (λ i. others (i + 1)) q1 item in
      if pushed then some q1 else rest

  -- `pop`: a round does the steps of `try_pop`.
  unfoldable pub pop :
      (fuel : ℕ)
      → (weak : ℕ → Bool × Bool) → (others : ℕ → Rbq A → Rbq A) → Rbq A
      → Option (A × Rbq A)
  pop zero weak others q = none
  pop (suc n) weak others q =
      let (item, q1) = try_pop (weak 0).0 (weak 0).1 (others 0 q) in
      let rest = pop n (λ i. weak (i + 1)) (λ i. others (i + 1)) q1 in
      elim item [ some x ↦ some (x, q1) | none ↦ rest ]

  -- The `n` items in memory at the distance `at`.
  unfoldable pub read : (mem : ℕ → A) → (at n : ℕ) → List A
  read mem at zero = []
  read mem at (suc n) = mem at ∷ read mem (at + 1) n

  -- From the label `push_items` to the end of the round.
  unfoldable pub push_items :
      (weak_next : Bool) → (mem : ℕ → A) → (fnext : ℕ) → Rbq A → Pushing A → Pushing A
  push_items weak_next mem fnext q s =
      let (reserved, q1) =
        if ltb 1 s.chunk
        then pushm_at weak_next q fnext (read mem s.at s.chunk)
        else push_at weak_next q fnext (mem s.at) in
      if reserved
      then record s { ring = q1; at = s.at + s.chunk; left = (s.left + 2 ^ 64 - s.chunk) % 2 ^ 64 }
      else record s { ring = q1 }

  -- One round of `while (n > 0)` in `pushm`.
  unfoldable pub pushm_round : (weak : Bool × Bool) → (mem : ℕ → A) → Pushing A → Pushing A
  pushm_round weak mem s =
      let fnext = next_get s.ring.fast in
      let full = λ (sbarr : ℕ). ltb (add64 sbarr s.ring.cap) (add64 fnext s.chunk) in
      let (sbarr, q1) = readers_barr weak.0 s.ring full in
      if full sbarr
      then record s { ring = q1; chunk = if s.chunk == 1 then s.chunk else s.chunk / 2 }
      else push_items weak.1 mem fnext q1 s

  unfoldable pub pushm_loop :
      (fuel : ℕ)
      → (weak : ℕ → Bool × Bool) → (others : ℕ → Rbq A → Rbq A) → (mem : ℕ → A) → Pushing A
      → Option (Rbq A)
  pushm_loop zero weak others mem s = none
  pushm_loop (suc n) weak others mem s =
      let s1 = pushm_round (weak 0) mem (record s { ring = others 0 s.ring }) in
      let rest = pushm_loop n (λ i. weak (i + 1)) (λ i. others (i + 1)) mem s1 in
      if s.left == 0 then some s.ring else rest

  -- The start of `pushm` for `n > 1`.
  unfoldable pub pushm_start : Rbq A → (n : ℕ) → Pushing A
  pushm_start q n = record { ring = q; at = 0; left = n; chunk = if ltb n q.cap then n else q.cap }

  -- `pushm` of the `n` items at the start of `mem`.
  unfoldable pub pushm :
      (fuel : ℕ)
      → (weak : ℕ → Bool × Bool) → (others : ℕ → Rbq A → Rbq A) → (mem : ℕ → A) → Rbq A
      → (n : ℕ) → Option (Rbq A)
  unfolding push pushm_loop pushm_start
  pushm fuel weak others mem q zero = some q
  pushm fuel weak others mem q (suc zero) = push fuel weak others q (mem 0)
  pushm fuel weak others mem q (suc (suc n)) =
      pushm_loop fuel weak others mem (pushm_start q (suc (suc n)))

  -- `popm` for `n > 1`: a round does the steps of `try_popm`, for the items that are left.
  unfoldable pub popm_loop :
      (fuel : ℕ)
      → (weak : ℕ → Bool × Bool) → (others : ℕ → Rbq A → Rbq A) → Rbq A
      → (n : ℕ) → Option (List A × Rbq A)
  popm_loop zero weak others q n = none
  popm_loop (suc fuel) weak others q n =
      let (got, q1) = pop_many (weak 0).0 (weak 0).1 (others 0 q) n in
      let rest = popm_loop fuel (λ i. weak (i + 1)) (λ i. others (i + 1)) q1 (n - length got) in
      if n == 0 then some ([], q) else elim rest [ none ↦ none | some r ↦ some (got ++ r.0, r.1) ]

  -- `popm`: the items that it stores, in order.
  unfoldable pub popm :
      (fuel : ℕ)
      → (weak : ℕ → Bool × Bool) → (others : ℕ → Rbq A → Rbq A) → Rbq A
      → (n : ℕ) → Option (List A × Rbq A)
  unfolding pop popm_loop
  popm fuel weak others q zero = some ([], q)
  popm fuel weak others q (suc zero) = elim (pop fuel weak others q) [
    | none ↦ none
    | some r ↦ some (r.0 ∷ [], r.1)
  ]
  popm fuel weak others q (suc (suc n)) = popm_loop fuel weak others q (suc (suc n))
