-- ===== src/Rbq/Ptr.antt =====
-- csp_rbq_seq, csp_rbq_sptr and csp_rbq_mptr of src/rbq.h: a pointer reserves sequence numbers by
-- `next` and publishes them by `barr`; the pointer for many threads notes in `stats` the number that
-- was last finished in each slot.
use shiyanhui_libcsp.Base.{
  ℕ, zero, suc, ◌+◌, ◌-◌, ◌%◌, ◌^◌, bit_and, Bool, true, false, not, ◌&&◌, ◌==◌, if◌then◌else◌,
  update,
}

pub data Kind : Type 0 where
  single multi : Kind

pub record Pointer : Type 0 where
  pub kind : Kind
  pub next : ℕ
  pub barr : ℕ
  pub stats : ℕ → ℕ

abbrev pub add64 : ℕ → ℕ → ℕ
add64 a b = (a + b) % 2 ^ 64

-- -1 as a uint_fast64_t.
abbrev pub unset : ℕ
unset = 2 ^ 64 - 1

-- `csp_rbq_sptr_init`, `csp_rbq_mptr_init`.
unfoldable pub init : Kind → Pointer
init kind = record { kind = kind; next = 0; barr = 0; stats = λ i. unset }

abbrev pub next_get : Pointer → ℕ
next_get p = p.next

abbrev pub barr_get : Pointer → ℕ
barr_get p = p.barr

-- `csp_rbq_mptr_is_avail`.
unfoldable pub is_avail : (ℕ → ℕ) → ℕ → ℕ → Bool
is_avail stats seqv mask = stats (bit_and seqv mask) == seqv

-- `while (is_avail(ptr, barr, mask)) barr++;` on fuel.
unfoldable pub scan : ℕ → (ℕ → ℕ) → ℕ → ℕ → ℕ
unfolding is_avail
scan zero stats mask barr = barr
scan (suc fuel) stats mask barr =
    let rest = scan fuel stats mask (add64 barr 1) in
    if is_avail stats barr mask then rest else barr

-- `csp_rbq_mptr_barr_update` after its scan; if the compare-exchange fails, the barrier is read
-- again, and nobody has changed it.
unfoldable pub barr_store : Bool → Pointer → ℕ → ℕ × Pointer
barr_store weak p barr =
    if p.barr == barr
    then (p.barr, p)
    else if weak
    then (p.barr, p)
    else (barr, record p { barr = barr })

-- `csp_rbq_sptr_barr_update` and `csp_rbq_mptr_barr_update`. At most `cap` slots are available.
unfoldable pub barr_update_by : Kind → Bool → Pointer → (cap mask : ℕ) → ℕ × Pointer
barr_update_by single weak p cap mask = (p.barr, p)
barr_update_by multi weak p cap mask = barr_store weak p (scan (cap + 1) p.stats mask p.barr)

unfoldable pub barr_update : Bool → Pointer → (cap mask : ℕ) → ℕ × Pointer
unfolding barr_update_by
barr_update weak p cap mask = barr_update_by p.kind weak p cap mask

-- `csp_rbq_sptr_next_rsv` and `csp_rbq_mptr_next_rsv`.
unfoldable pub next_rsv_by : Kind → Bool → Pointer → (curr n : ℕ) → Bool × Pointer
next_rsv_by single weak p curr n = (true, record p { next = add64 curr n })
next_rsv_by multi weak p curr n =
    if (p.next == curr) && not weak then (true, record p { next = add64 curr n }) else (false, p)

unfoldable pub next_rsv : Bool → Pointer → (curr n : ℕ) → Bool × Pointer
unfolding next_rsv_by
next_rsv weak p curr n = next_rsv_by p.kind weak p curr n

-- `csp_rbq_sptr_mark_avail` and `csp_rbq_mptr_mark_avail`.
unfoldable pub mark_avail_by : Kind → Pointer → (seqv mask : ℕ) → Pointer
mark_avail_by single p seqv mask = record p { barr = p.next }
mark_avail_by multi p seqv mask = record p { stats = update p.stats (bit_and seqv mask) seqv }

unfoldable pub mark_avail : Pointer → (seqv mask : ℕ) → Pointer
unfolding mark_avail_by
mark_avail p seqv mask = mark_avail_by p.kind p seqv mask

-- The loop of `csp_rbq_mptr_markm_avail` over `n` numbers from `i`.
unfoldable pub mark_each : ℕ → (ℕ → ℕ) → (i mask : ℕ) → ℕ → ℕ
mark_each zero stats i mask = stats
mark_each (suc n) stats i mask = mark_each n (update stats (bit_and i mask) i) (add64 i 1) mask

-- `csp_rbq_sptr_markm_avail` and `csp_rbq_mptr_markm_avail` on `[start, start + n)`.
unfoldable pub markm_avail_by : Kind → Pointer → (start n mask : ℕ) → Pointer
markm_avail_by single p start n mask = record p { barr = p.next }
markm_avail_by multi p start n mask = record p { stats = mark_each n p.stats start mask }

unfoldable pub markm_avail : Pointer → (start n mask : ℕ) → Pointer
unfolding mark_each markm_avail_by
markm_avail p start n mask = markm_avail_by p.kind p start n mask
