-- ===== src/Rbq/Raw.antt =====
-- The queue with no threads of src/rbq.h (rrbq): two sequence numbers of 64 bits, of which the
-- readers' one goes down too, and an array that grows.
pub mod Refine
pub mod Grow
mod Tests
use shiyanhui_libcsp.Base.{
  ℕ, ◌+◌, ◌-◌, ◌*◌, ◌%◌, ◌^◌, Bool, true, false, Option, none, some, ltb, if◌then◌else◌,
}
use shiyanhui_libcsp.Rbq.Items.{items_get, items_set}

-- `csp_rrbq_t`.
pub record Raw {ℓ} (A : Type ℓ) : Type ℓ where
  pub items : ℕ → A
  pub cap : ℕ
  pub mask : ℕ
  pub slow : ℕ
  pub fast : ℕ

module _ {ℓ} {A : Type ℓ} where
  -- `csp_rrbq_len_inner`.
  unfoldable pub len : Raw A → ℕ
  len q = (q.fast + 2 ^ 64 - q.slow) % 2 ^ 64

  -- `csp_rrbq_new`, where every malloc succeeds; `raw` is what the fresh array holds.
  unfoldable pub new : (cap_exp : ℕ) → (raw : ℕ → A) → Raw A
  new cap_exp raw = record {
    items = raw;
    cap = 2 ^ cap_exp;
    mask = 2 ^ cap_exp - 1;
    slow = 0;
    fast = 0;
  }

  -- `csp_rrbq_try_push`.
  unfoldable pub try_push : Raw A → A → Bool × Raw A
  unfolding len items_set
  try_push q item =
      if ltb (len q) q.cap
      then (
        true,
        record q { items = items_set q.items q.mask q.fast item; fast = (q.fast + 1) % 2 ^ 64 },
      )
      else (false, q)

  -- `csp_rrbq_try_push_front`.
  unfoldable pub try_push_front : Raw A → A → Bool × Raw A
  unfolding len items_set
  try_push_front q item =
      let slow = (q.slow + 2 ^ 64 - 1) % 2 ^ 64 in
      if ltb (len q) q.cap
      then (true, record q { items = items_set q.items q.mask slow item; slow = slow })
      else (false, q)

  -- `csp_rrbq_try_pop`: the item is what goes through the pointer.
  unfoldable pub try_pop : Raw A → Option A × Raw A
  unfolding len items_get
  try_pop q =
      if ltb 0 (len q)
      then (some (items_get q.items q.mask q.slow), record q { slow = (q.slow + 1) % 2 ^ 64 })
      else (none, q)

  -- `csp_rrbq_try_grow`, which realloc may refuse; the array keeps its items.
  unfoldable pub try_grow : (granted : Bool) → Raw A → Bool × Raw A
  try_grow granted q = if granted then (true, record q { cap = q.cap * 2 % 2 ^ 64 }) else (false, q)
