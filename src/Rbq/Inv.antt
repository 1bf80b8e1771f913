-- ===== src/Rbq/Inv.antt =====
-- The invariant of a ring between operations, and what the pointer operations of src/rbq.h do to it.
use shiyanhui_libcsp.Base.{
  ℕ, zero, suc, ◌+◌, ◌-◌, ◌*◌, ◌/◌, ◌%◌, ◌^◌, ◌≤◌, ◌<◌, bit_and, bit_and-mask, ◌≡◌, ◌≢◌, refl, sym,
  ap, ◌⊎◌, inl, inr, Bool, true, false, arith, ◌==◌, if◌then◌else◌, ne→==, eq→==, Bool-cases,
}
use native.Mathlib.Decide.{dec_lt}
use native.Mathlib.Nat.{div-add-mod}
use shiyanhui_libcsp.Rbq.Ptr.{
  Kind, single, multi, Pointer, add64, unset, scan, barr_store, barr_update, barr_update_by,
  mark_avail, mark_avail_by, next_rsv, next_rsv_by,
}

mul_mono : (c a b : ℕ) → a ≤ b → c * a ≤ c * b
mul_mono c a b h = grind arith

-- Two numbers less than `c` apart stand in different slots.
pub mod-ne : (c i j : ℕ) → i < j → j < i + c → i % c ≢ j % c
mod-ne c i j lt near e =
    let a = div-add-mod i c in
    let b = div-add-mod j c in
    elim (dec_lt (i / c) (j / c)) [
      | yes up ↦
          let far : c * suc (i / c) ≤ c * (j / c) = mul_mono c (suc (i / c)) (j / c) up in
          omega arith
      | no down ↦
          let low : c * (j / c) ≤ c * (i / c) = mul_mono c (j / c) (i / c) (omega arith) in
          omega arith
    ]

Kind-cases : (k : Kind) → (k ≡ single) ⊎ (k ≡ multi)
Kind-cases single = inl refl
Kind-cases multi = inr refl

-- `cap` slots. What is reserved and not yet behind the barrier is finished: no thread is between
-- the steps of an operation.
pub record IsPtr (cap : ℕ) (p : Pointer) : Type 0 where
  pub barr_le : p.barr ≤ p.next
  pub near : p.next ≤ p.barr + cap
  pub exact : p.kind ≡ single → p.barr ≡ p.next
  pub marked : p.kind ≡ multi → (i : ℕ) → p.barr ≤ i → i < p.next → p.stats (i % cap) ≡ i
  pub older : p.kind ≡ multi → (s : ℕ) → (p.stats s < p.next) ⊎ (p.stats s ≡ unset)

-- The scan ends where the first number stands that is not finished.
scan-stop :
    (e fuel : ℕ) (stats : ℕ → ℕ) (barr next : ℕ)
    → barr ≤ next
    → next < barr + fuel
    → next < 2 ^ 63
    → ((i : ℕ) → barr ≤ i → i < next → stats (i % 2 ^ e) ≡ i)
    → stats (next % 2 ^ e) ≢ next
    → scan fuel stats (2 ^ e - 1) barr ≡ next
unfolding scan
scan-stop e zero stats barr next le f r m n = absurd (omega arith)
scan-stop e (suc fuel) stats barr next le f r m n = elim (Bool-cases (barr == next)) [
  | inl done ↦
      let same : barr ≡ next = ground arith in
      rw (bit_and-mask e barr, same, ne→== (stats (next % 2 ^ e)) next n)
  | inr more ↦
      let step : add64 barr 1 ≡ barr + 1 = omega arith in
      let lt : barr < next = ground arith in
      rw (bit_and-mask e barr, eq→== (stats (barr % 2 ^ e)) barr (m barr (omega arith) lt), step)
        (scan-stop e fuel stats (barr + 1) next (omega arith) (omega arith) r
          (λ i a b. m i (omega arith) b) n)
]

-- Reading the barrier again keeps the pointer in order and moves the barrier on, up to `next` if
-- the compare-exchange holds.
pub record Updated (cap : ℕ) (weak : Bool) (p : Pointer) (r : ℕ × Pointer) : Type 0 where
  pub fits : IsPtr cap r.1
  pub fresh : r.0 ≡ r.1.barr
  pub next : r.1.next ≡ p.next
  pub kind : r.1.kind ≡ p.kind
  pub grows : p.barr ≤ r.1.barr
  pub whole : weak ≡ false → r.1.barr ≡ p.next

barr_store-Updated :
    (cap : ℕ) (weak : Bool) (p : Pointer)
    → p.kind ≡ multi
    → IsPtr cap p
    → Updated cap weak p (barr_store weak p p.next)
unfolding barr_store
barr_store-Updated cap weak p k v = elim (Bool-cases (p.barr == p.next)) [
  | inl same ↦
      rw (same, barr_store)
        (record {
          fits = v;
          fresh = refl;
          next = refl;
          kind = refl;
          grows = omega arith;
          whole = λ w. ground arith;
        })
  | inr less ↦ rw (less, barr_store) (stored weak)
]
  where
    fitted : IsPtr cap (record p { barr = p.next })
    fitted = record {
      barr_le = omega arith;
      near = omega arith;
      exact = λ _. refl;
      marked = λ q i lo hi. absurd (omega arith);
      older = v.older;
    }

    stored :
        (w : Bool)
        → Updated cap w p (if w then (p.barr, p) else (p.next, record p { barr = p.next }))
    stored true = record {
      fits = v;
      fresh = refl;
      next = refl;
      kind = refl;
      grows = omega arith;
      whole = λ q. cc;
    }
    stored false = record {
      fits = fitted;
      fresh = refl;
      next = refl;
      kind = refl;
      grows = v.barr_le;
      whole = λ q. refl;
    }

multi-Updated :
    (e : ℕ) (weak : Bool) (p : Pointer)
    → p.next < 2 ^ 63
    → p.kind ≡ multi
    → IsPtr (2 ^ e) p
    → Updated (2 ^ e) weak p (barr_store weak p (scan (2 ^ e + 1) p.stats (2 ^ e - 1) p.barr))
multi-Updated e weak p r k v =
    let found =
      scan-stop e (2 ^ e + 1) p.stats p.barr p.next v.barr_le (omega arith) r (v.marked k)
        (ground (arith, v.older k (p.next % 2 ^ e))) in
    rw found (barr_store-Updated (2 ^ e) weak p k v)

barr_update_by-Updated :
    (e : ℕ) (k : Kind) (weak : Bool) (p : Pointer)
    → p.kind ≡ k
    → p.next < 2 ^ 63
    → IsPtr (2 ^ e) p
    → Updated (2 ^ e) weak p (barr_update_by k weak p (2 ^ e) (2 ^ e - 1))
unfolding barr_update_by
barr_update_by-Updated e single weak p k r v = record {
  fits = v;
  fresh = refl;
  next = refl;
  kind = refl;
  grows = omega arith;
  whole = λ w. v.exact k;
}
barr_update_by-Updated e multi weak p k r v = multi-Updated e weak p r k v

pub barr_update-Updated :
    (e : ℕ) (weak : Bool) (p : Pointer)
    → p.next < 2 ^ 63
    → IsPtr (2 ^ e) p
    → Updated (2 ^ e) weak p (barr_update weak p (2 ^ e) (2 ^ e - 1))
unfolding barr_update
barr_update-Updated e weak p r v = barr_update_by-Updated e p.kind weak p refl r v

-- One number reserved and finished.
abbrev pub advance : Pointer → ℕ → Pointer
advance p mask = mark_avail (record p { next = add64 p.next 1 }) p.next mask

mark-IsPtr :
    (e : ℕ) (k : Kind) (p : Pointer)
    → p.kind ≡ k
    → p.next < 2 ^ 63
    → p.next < p.barr + 2 ^ e
    → IsPtr (2 ^ e) p
    → IsPtr (2 ^ e) (mark_avail_by k (record p { next = add64 p.next 1 }) p.next (2 ^ e - 1))
unfolding mark_avail_by
mark-IsPtr e single p k r room v = record {
  barr_le = omega arith;
  near = omega arith;
  exact = λ _. refl;
  marked = λ q i lo hi. absurd (omega arith);
  older = λ q s. absurd (cc);
}
mark-IsPtr e multi p k r room v = record {
  barr_le = omega arith;
  near = omega arith;
  exact = λ q. absurd (cc);
  marked = λ q i lo hi. rw (bit_and-mask e p.next) (elim (Bool-cases (p.next == i)) [
    | inl new ↦
        let same : p.next ≡ i = ground arith in
        rw (eq→== (p.next % 2 ^ e) (i % 2 ^ e) (ap (λ t. t % 2 ^ e) same)) same
    | inr old ↦
        let lt : i < p.next = ground arith in
        let apart = mod-ne (2 ^ e) i p.next lt (omega arith) in
        rw (ne→== (p.next % 2 ^ e) (i % 2 ^ e) (λ t. apart (sym t))) (v.marked k i lo lt)
  ]);
  older = λ q s. elim (Bool-cases (bit_and p.next (2 ^ e - 1) == s)) [
    | inl here ↦ rw here (inl (omega arith))
    | inr there ↦
        rw there (elim (v.older k s) [ inl lt ↦ inl (omega arith) | inr none_yet ↦ inr none_yet ])
  ];
}

-- A thread that reserves a number and finishes it keeps the pointer in order.
pub advance-IsPtr :
    (e : ℕ) (p : Pointer)
    → p.next < 2 ^ 63
    → p.next < p.barr + 2 ^ e
    → IsPtr (2 ^ e) p
    → IsPtr (2 ^ e) (advance p (2 ^ e - 1))
unfolding mark_avail
advance-IsPtr e p r room v = mark-IsPtr e p.kind p refl r room v

-- `n` numbers reserved: all fields but `next` stay.
abbrev pub reserve : Pointer → ℕ → Pointer
reserve p n = record p { next = add64 p.next n }

reserve_by :
    (k : Kind) (weak : Bool) (p : Pointer) (n : ℕ)
    → (b : Bool) × (next_rsv_by k weak p p.next n ≡ (b, if b then reserve p n else p))
      × (weak ≡ false → b ≡ true)
unfolding next_rsv_by
reserve_by single weak p n = (true, refl, λ w. refl)
reserve_by multi true p n = (false, ground arith, λ w. cc)
reserve_by multi false p n = (true, ground arith, λ w. refl)

-- A reservation at `next` gives exactly the `n` numbers, or changes nothing; only the weak
-- compare-exchange refuses.
pub next_rsv-reserve :
    (weak : Bool) (p : Pointer) (n : ℕ)
    → (b : Bool) × (next_rsv weak p p.next n ≡ (b, if b then reserve p n else p))
      × (weak ≡ false → b ≡ true)
unfolding next_rsv
next_rsv-reserve weak p n = reserve_by p.kind weak p n

mark_by-keeps :
    (k : Kind) (p : Pointer) (s m : ℕ)
    → p.barr ≤ p.next
    → ((mark_avail_by k p s m).next ≡ p.next) × (p.barr ≤ (mark_avail_by k p s m).barr)
unfolding mark_avail_by
mark_by-keeps single p s m h = (refl, h)
mark_by-keeps multi p s m h = (refl, omega arith)

-- Marking leaves `next` alone and never moves the barrier back.
pub mark_avail-keeps :
    (p : Pointer) (s m : ℕ)
    → p.barr ≤ p.next
    → ((mark_avail p s m).next ≡ p.next) × (p.barr ≤ (mark_avail p s m).barr)
unfolding mark_avail
mark_avail-keeps p s m h = mark_by-keeps p.kind p s m h
