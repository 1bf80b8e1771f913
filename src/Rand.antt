-- ===== src/Rand.antt =====
-- src/rand.c: the generator xoshiro256** on four words of 64 bits. The seeds of csp_rand_init come
-- from the C library.
use shiyanhui_libcsp.Base.{ℕ, ◌-◌, ◌*◌, ◌/◌, ◌%◌, ◌^◌, bit_or, bit_xor, ◌≡◌, refl}

-- `csp_rand_t`, without the mutex.
pub record Rand : Type 0 where
  pub s0 : ℕ
  pub s1 : ℕ
  pub s2 : ℕ
  pub s3 : ℕ

-- `csp_rand_rol64`.
abbrev pub rol64 : (x k : ℕ) → ℕ
rol64 x k = bit_or (x * 2 ^ k % 2 ^ 64) (x / 2 ^ (64 - k))

-- `csp_rand`: the number and the next state.
unfoldable pub csp_rand : Rand → ℕ × Rand
csp_rand r =
    let t = r.s1 * 2 ^ 17 % 2 ^ 64 in
    let ret = rol64 (r.s1 * 5 % 2 ^ 64) 7 * 9 % 2 ^ 64 in
    let s2 = bit_xor r.s2 r.s0 in
    let s3 = bit_xor r.s3 r.s1 in
    let s1 = bit_xor r.s1 s2 in
    let s0 = bit_xor r.s0 s3 in
    (ret, record { s0 = s0; s1 = s1; s2 = bit_xor s2 t; s3 = rol64 s3 45 })

-- The first two numbers from the state 1, 2, 3, 4.
first_numbers :
    let (a, r) = csp_rand (record { s0 = 1; s1 = 2; s2 = 3; s3 = 4 }) in
    (a ≡ 11520) × ((csp_rand r).0 ≡ 0)
unfolding csp_rand
first_numbers = (refl, refl)
