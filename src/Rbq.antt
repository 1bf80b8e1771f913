-- ===== src/Rbq.antt =====
-- src/rbq.h: the ring buffer queues. Rbq/Ptr models the two kinds of sequence pointer (sptr, mptr),
-- Rbq/Items the item array, this file the try operations that csp_rbq_define makes for each choice
-- of kinds, Rbq/Raw the queue with no threads (rrbq). An operation here runs with no other thread
-- between its steps. A compare-exchange is weak: an argument says whether it fails for no reason.
-- A sequence number is a uint_fast64_t and a size a size_t, both of 64 bits.
pub mod Ptr
pub mod Items
pub mod Inv
pub mod Ring
pub mod Push
pub mod Pop
pub mod Batch
pub mod Pushm
pub mod Popm
pub mod Wait
pub mod Raw
mod Tests
use shiyanhui_libcsp.Base.{
  ℕ, zero, suc, ◌+◌, ◌-◌, ◌^◌, Bool, true, false, List, [], ◌∷◌, ltb, leb, if◌then◌else◌, length,
  Option, none, some, min,
}
use Ptr.{
  Kind, Pointer, add64, init, barr_get, barr_update, next_get, next_rsv, mark_avail, markm_avail,
}
use Items.{items_set, items_get, items_setm, items_getm}

-- `csp_rbq_declare`: `slow` is the readers' pointer, `fast` the writers'.
pub record Rbq {ℓ} (A : Type ℓ) : Type ℓ where
  pub items : ℕ → A
  pub cap : ℕ
  pub mask : ℕ
  pub slow : Pointer
  pub fast : Pointer

module _ {ℓ} {A : Type ℓ} where
  -- `new`, where every malloc succeeds; `raw` is what the fresh item array holds.
  unfoldable pub new : Kind → Kind → (cap_exp : ℕ) → (raw : ℕ → A) → Rbq A
  new fast slow cap_exp raw = record {
    items = raw;
    cap = 2 ^ cap_exp;
    mask = 2 ^ cap_exp - 1;
    slow = init slow;
    fast = init fast;
  }

  -- The writer's view of the readers' barrier: read again if there is too little room.
  unfoldable pub readers_barr : Bool → Rbq A → (full : ℕ → Bool) → ℕ × Rbq A
  readers_barr weak q full =
      let sbarr = barr_get q.slow in
      if full sbarr
      then (let (b, slow) = barr_update weak q.slow q.cap q.mask in (b, record q { slow = slow }))
      else (sbarr, q)

  -- The reader's view of the writers' barrier: read again if there is nothing to take.
  unfoldable pub writers_barr : Bool → Rbq A → ℕ × Rbq A
  writers_barr weak q =
      let fbarr = barr_get q.fast in
      if leb fbarr (next_get q.slow)
      then (let (b, fast) = barr_update weak q.fast q.cap q.mask in (b, record q { fast = fast }))
      else (fbarr, q)

  -- The end of `try_push`: reserve, write, publish.
  unfoldable pub push_at : (weak_next : Bool) → Rbq A → (fnext : ℕ) → A → Bool × Rbq A
  push_at weak_next q fnext item =
      let (reserved, fast) = next_rsv weak_next q.fast fnext 1 in
      if reserved
      then (
        true,
        record q {
          items = items_set q.items q.mask fnext item;
          fast = mark_avail fast fnext q.mask;
        },
      )
      else (false, q)

  -- `try_push`. `weak_barr` and `weak_next` are the failures of the two compare-exchanges.
  unfoldable pub try_push : (weak_barr weak_next : Bool) → Rbq A → A → Bool × Rbq A
  try_push weak_barr weak_next q item =
      let fnext = next_get q.fast in
      let full = λ (sbarr : ℕ). leb (add64 sbarr q.cap) fnext in
      let (sbarr, q1) = readers_barr weak_barr q full in
      if full sbarr then (false, q1) else push_at weak_next q1 fnext item

  -- The end of `try_pop`: reserve, read, give the slot back.
  unfoldable pub pop_at : (weak_next : Bool) → Rbq A → (snext : ℕ) → Option A × Rbq A
  pop_at weak_next q snext =
      let (reserved, slow) = next_rsv weak_next q.slow snext 1 in
      if reserved
      then (some (items_get q.items q.mask snext), record q { slow = mark_avail slow snext q.mask })
      else (none, q)

  -- `try_pop`: the item is what goes through the pointer.
  unfoldable pub try_pop : (weak_barr weak_next : Bool) → Rbq A → Option A × Rbq A
  try_pop weak_barr weak_next q =
      let snext = next_get q.slow in
      let (fbarr, q1) = writers_barr weak_barr q in
      if leb fbarr snext then (none, q1) else pop_at weak_next q1 snext

  -- The end of `try_pushm` for `n > 1`.
  unfoldable pub pushm_at : (weak_next : Bool) → Rbq A → (fnext : ℕ) → List A → Bool × Rbq A
  pushm_at weak_next q fnext xs =
      let (reserved, fast) = next_rsv weak_next q.fast fnext (length xs) in
      if reserved
      then (
        true,
        record q {
          items = items_setm q.items q.cap q.mask fnext xs;
          fast = markm_avail fast fnext (length xs) q.mask;
        },
      )
      else (false, q)

  -- The body of `try_pushm` for `n > 1`.
  unfoldable pub push_many : (weak_barr weak_next : Bool) → Rbq A → List A → Bool × Rbq A
  push_many weak_barr weak_next q xs =
      let fnext = next_get q.fast in
      let full = λ (sbarr : ℕ). ltb (add64 sbarr q.cap) (add64 fnext (length xs)) in
      let (sbarr, q1) = readers_barr weak_barr q full in
      if full sbarr then (false, q1) else pushm_at weak_next q1 fnext xs

  -- `try_pushm` of the `n` items at `items`, the list of them.
  unfoldable pub try_pushm : (weak_barr weak_next : Bool) → Rbq A → List A → Bool × Rbq A
  try_pushm weak_barr weak_next q [] = (true, q)
  try_pushm weak_barr weak_next q (x ∷ []) = try_push weak_barr weak_next q x
  try_pushm weak_barr weak_next q (x ∷ y ∷ xs) = push_many weak_barr weak_next q (x ∷ y ∷ xs)

  -- The end of `try_popm` for `n > 1`, with `len` items to take.
  unfoldable pub popm_at : (weak_next : Bool) → Rbq A → (snext len : ℕ) → List A × Rbq A
  popm_at weak_next q snext len =
      let (reserved, slow) = next_rsv weak_next q.slow snext len in
      if reserved
      then if ltb 1 len
        then (
          items_getm q.items q.cap q.mask snext len,
          record q { slow = markm_avail slow snext len q.mask },
        )
        else (items_get q.items q.mask snext ∷ [], record q { slow = mark_avail slow snext q.mask })
      else ([], q)

  -- The body of `try_popm` for `n > 1`.
  unfoldable pub pop_many : (weak_barr weak_next : Bool) → Rbq A → ℕ → List A × Rbq A
  pop_many weak_barr weak_next q n =
      let snext = next_get q.slow in
      let (fbarr, q1) = writers_barr weak_barr q in
      let avail = fbarr - snext in
      if leb fbarr snext
      then ([], q1)
      else popm_at weak_next q1 snext (if ltb n avail then n else avail)

  -- `try_popm` of at most `n` items; what it returns is the length of the list.
  unfoldable pub try_popm : (weak_barr weak_next : Bool) → Rbq A → ℕ → List A × Rbq A
  try_popm weak_barr weak_next q zero = ([], q)
  try_popm weak_barr weak_next q (suc zero) =
      let (item, q1) = try_pop weak_barr weak_next q in
      (elim item [ none ↦ [] | some x ↦ x ∷ [] ], q1)
  try_popm weak_barr weak_next q (suc (suc n)) = pop_many weak_barr weak_next q (suc (suc n))
