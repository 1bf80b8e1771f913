-- ===== src/Corepool/Init.antt =====
-- The start of the pools of src/corepool.c.
use native.Mathlib.Nat.{div-add-mod, mod-lt, mul-add, mul-one}
use shiyanhui_libcsp.Base.{
  ℕ, zero, suc, ◌+◌, ◌*◌, ◌/◌, ◌%◌, ◌≤◌, ◌<◌, ◌≡◌, Option-cases, ◌≢◌, refl, ap, sym, ◌∙◌, inl, inr,
  Bool, true, false, Bool-cases, ◌==◌, Option, none, some, arith, update, eq→==, ne→==,
}
use shiyanhui_libcsp.Runq.{Ptr}
use shiyanhui_libcsp.Corepool.{
  New, no_pool, freed, made, fill, pool_new, cores_per_cpu, Pools, init_each, pools_init,
}

-- No pool is NULL.
init_each-Step :
    (pool_of : ℕ → New) (i n : ℕ) (pools : ℕ → New)
    → pool_of i ≢ no_pool
    → init_each pool_of i (suc n) pools ≡ init_each pool_of (i + 1) n (update pools i (pool_of i))
unfolding init_each
init_each-Step pool_of i n pools some_pool = go (pool_of i) some_pool
  where
    go :
        (x : New)
        → x ≢ no_pool
        → ◌≡◌ {A = Bool × Pools}
            (elim x [
              | no_pool ↦ (false, record { len = i; pools = update pools i (pool_of i) })
              | freed ↦ init_each pool_of (i + 1) n (update pools i (pool_of i))
              | made p ↦ init_each pool_of (i + 1) n (update pools i (pool_of i))
            ])
            (init_each pool_of (i + 1) n (update pools i (pool_of i)))
    go no_pool h = absurd (h refl)
    go freed h = refl
    go (made p) h = refl

init_each-len :
    (pool_of : ℕ → New) (i n : ℕ) (pools : ℕ → New)
    → ((j : ℕ) → pool_of j ≢ no_pool)
    → ((init_each pool_of i n pools).0 ≡ true) × ((init_each pool_of i n pools).1.len ≡ i + n)
unfolding init_each
init_each-len pool_of i zero pools h = (refl, omega arith)
init_each-len pool_of i (suc n) pools h =
    let (ok, len) = init_each-len pool_of (i + 1) n (update pools i (pool_of i)) h in
    rw (init_each-Step pool_of i n pools (h i)) (ok, len ∙ omega arith)

init_each-before :
    (pool_of : ℕ → New) (i n : ℕ) (pools : ℕ → New) (k : ℕ)
    → ((j : ℕ) → pool_of j ≢ no_pool)
    → k < i
    → (init_each pool_of i n pools).1.pools k ≡ pools k
unfolding init_each
init_each-before pool_of i zero pools k h lt = refl
init_each-before pool_of i (suc n) pools k h lt = rw (init_each-Step pool_of i n pools (h i)) (
    init_each-before pool_of (i + 1) n (update pools i (pool_of i)) k h (omega arith)
    ∙ rw (ne→== i k (λ t. absurd (omega (arith, t)))) refl)

init_each-at :
    (pool_of : ℕ → New) (i n : ℕ) (pools : ℕ → New) (k : ℕ)
    → ((j : ℕ) → pool_of j ≢ no_pool)
    → i ≤ k
    → k < i + n
    → (init_each pool_of i n pools).1.pools k ≡ pool_of k
init_each-at pool_of i zero pools k h lo hi = absurd (omega arith)
init_each-at pool_of i (suc n) pools k h lo hi =
    rw (init_each-Step pool_of i n pools (h i)) (elim (Bool-cases (i == k)) [
      | inl here ↦
          let same : i ≡ k = ground arith in
          init_each-before pool_of (i + 1) n (update pools i (pool_of i)) k h (omega arith)
          ∙ rw here (ap pool_of same)
      | inr later ↦
          let apart : i ≢ k = λ t. cc (eq→== i k t) in
          let above : i < k = ground arith in
          init_each-at pool_of (i + 1) n (update pools i (pool_of i)) k h (omega arith)
            (omega arith)
    ])

-- Every processor gets enough cores for its share of the threads, and less than one too many.
cores_per_cpu_bounds :
    (max np : ℕ)
    → 0 < np
    → (max ≤ np * cores_per_cpu max np) × (np * cores_per_cpu max np < max + np)
unfolding cores_per_cpu
cores_per_cpu_bounds max np pos =
    let parts = div-add-mod max np in
    let rest = mod-lt max pos in
    elim (Bool-cases (max % np == 0)) [
      | inl exact ↦
          let same : max / np + 0 ≡ max / np = omega arith in
          let none_left : max % np ≡ 0 = ground arith in rw (exact, same) (omega arith, omega arith)
      | inr more ↦
          let some_left : 0 < max % np = ground arith in
          let whole = mul-add np (max / np) 1 in
          rw more (omega (arith, mul-one np), omega (arith, mul-one np))
    ]

fill-none :
    (core_new : ℕ → Option Ptr) (i n : ℕ) (cores : ℕ → Ptr) (j : ℕ)
    → i ≤ j
    → j < i + n
    → core_new j ≡ none
    → fill core_new i n cores ≡ none
unfolding fill
fill-none core_new i zero cores j lo hi fails = absurd (omega arith)
fill-none core_new i (suc n) cores j lo hi fails = elim (Option-cases (core_new i)) [
  | inl none_new ↦ rw none_new refl
  | inr (core, some_new) ↦
      let later : i ≢ j = λ t. cc (sym some_new ∙ ap core_new t ∙ fails) in
      let above : i < j = ground arith in
      rw some_new
        (fill-none core_new (i + 1) n (update cores i core) j (omega arith) (omega arith) fails)
]

pool_new-some_pool :
    (parts : Bool) (core_new : ℕ → Option Ptr) (raw : ℕ → Ptr) (n : ℕ)
    → pool_new true parts core_new raw n ≢ no_pool
unfolding pool_new
pool_new-some_pool false core_new raw n h = cc h
pool_new-some_pool true core_new raw n h = elim (Option-cases (fill core_new 0 n raw)) [
  | inl none_filled ↦ (let t = rw none_filled at h in cc t)
  | inr (cores, filled) ↦ (let t = rw filled at h in cc t)
]

fill-cores :
    (addr : ℕ → Ptr) (i n : ℕ) (cores : ℕ → Ptr)
    → (filled : ℕ → Ptr) × (fill (λ j. some (addr j)) i n cores ≡ some filled)
      × ((j : ℕ) → j < i → filled j ≡ cores j)
      × ((j : ℕ) → i ≤ j → j < i + n → filled j ≡ addr j)
unfolding fill
fill-cores addr i zero cores = (cores, refl, λ j lt. refl, λ j lo hi. absurd (omega arith))
fill-cores addr i (suc n) cores =
    let (filled, done, before, at) = fill-cores addr (i + 1) n (update cores i (addr i)) in
    (
      filled,
      done,
      λ j lt. before j (omega arith) ∙ rw (ne→== i j (λ t. absurd (omega (arith, t)))) refl,
      λ j lo hi. elim (Bool-cases (i == j)) [
        | inl here ↦
            let same : i ≡ j = ground arith in before j (omega arith) ∙ rw here (ap addr same)
        | inr later ↦ let apart : i ≢ j = λ t. cc (eq→== i j t) in at j (omega arith) (ground arith)
      ],
    )

-- Where every allocation works, `csp_core_pools_init` returns true and fills the pool of every
-- processor with all its cores; all pools have at least as many cores as there are threads, and
-- fewer than one for each processor more.
pools_init-filled :
    (addr : ℕ → ℕ → Ptr) (raw : ℕ → Ptr) (fresh : ℕ → New) (max np pid : ℕ)
    → pid < np
    → let n = cores_per_cpu max np in
      let pool_of : ℕ → ℕ → New = λ n i. pool_new true true (λ j. some (addr i j)) raw n in
      let (ok, pools) = pools_init pool_of max np fresh in
      (ok ≡ true)
      × (pools.len ≡ np)
      × ((cores : ℕ → Ptr) × (pools.pools pid ≡ made (record { cap = n; top = n; cores = cores }))
          × ((j : ℕ) → j < n → cores j ≡ addr pid j))
      × (max ≤ np * n)
      × (np * n < max + np)
unfolding pools_init pool_new
pools_init-filled addr raw fresh max np pid lt =
    let n = cores_per_cpu max np in
    let pool_of : ℕ → New = λ i. pool_new true true (λ j. some (addr i j)) raw n in
    let some_pool : (i : ℕ) → pool_of i ≢ no_pool =
      λ i. pool_new-some_pool true (λ j. some (addr i j)) raw n in
    let (ok, len) = init_each-len pool_of 0 np fresh some_pool in
    let at = init_each-at pool_of 0 np fresh pid some_pool (omega arith) (omega arith) in
    let (cores, done, before, all) = fill-cores (addr pid) 0 n raw in
    let (low, high) = cores_per_cpu_bounds max np (omega arith) in
    let len_np : (init_each pool_of 0 np fresh).1.len ≡ np = omega (arith, len) in
    (ok, len_np, (cores, at ∙ rw done refl, λ j l. all j (omega arith) (omega arith)), low, high)

-- Where a core of processor `pid` cannot be made, `csp_core_pools_init` still returns true, and the
-- pool of that processor is one that has been freed.
pub pools_init-freed :
    (parts : ℕ → Bool) (core_new : ℕ → ℕ → Option Ptr) (raw : ℕ → Ptr) (fresh : ℕ → New)
    (max np pid j : ℕ)
    → pid < np
    → j < cores_per_cpu max np
    → core_new pid j ≡ none
    → let pool_of : ℕ → ℕ → New = λ n i. pool_new true (parts i) (core_new i) raw n in
      let (ok, pools) = pools_init pool_of max np fresh in (ok ≡ true) × (pools.pools pid ≡ freed)
unfolding pools_init pool_new
pools_init-freed parts core_new raw fresh max np pid j lt inside fails =
    let n = cores_per_cpu max np in
    let pool_of : ℕ → New = λ i. pool_new true (parts i) (core_new i) raw n in
    let some_pool : (i : ℕ) → pool_of i ≢ no_pool =
      λ i. pool_new-some_pool (parts i) (core_new i) raw n in
    let (ok, len) = init_each-len pool_of 0 np fresh some_pool in
    let at = init_each-at pool_of 0 np fresh pid some_pool (omega arith) (omega arith) in
    let missed = fill-none (core_new pid) 0 n raw j (omega arith) (omega arith) fails in
    (
      ok,
      at ∙ elim (Bool-cases (parts pid)) [
        | inl some_parts ↦ rw (some_parts, missed) refl
        | inr none_parts ↦ rw none_parts refl
      ],
    )
