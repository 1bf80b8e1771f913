-- ===== src/Corepool/Stack.antt =====
-- The pools of src/corepool.c as stacks.
use shiyanhui_libcsp.Base.{
  ℕ, zero, suc, ◌+◌, ◌-◌, ◌≤◌, ◌≡◌, refl, ap, ap₂, inl, inr, Bool-cases, ◌==◌, Option, none, some,
  List, [], ◌∷◌, arith, update, eq→==, ne→==, length,
}
use shiyanhui_libcsp.Runq.{Ptr}
use shiyanhui_libcsp.Corepool.{Pool, pool_push, pool_pop}

unfoldable pub stacked : (ℕ → Ptr) → ℕ → List Ptr
stacked cores zero = []
stacked cores (suc n) = cores n ∷ stacked cores n

-- The cores of a pool, the one that comes out first at the head.
abbrev pub contents : Pool → List Ptr
contents p = stacked p.cores p.top

pub length-stacked : (cores : ℕ → Ptr) (n : ℕ) → length (stacked cores n) ≡ n
unfolding stacked
length-stacked cores zero = refl
length-stacked cores (suc n) = ap suc (length-stacked cores n)

stacked-update :
    (cores : ℕ → Ptr) (n i : ℕ) (core : Ptr)
    → n ≤ i
    → stacked (update cores i core) n ≡ stacked cores n
unfolding stacked
stacked-update cores zero i core h = refl
stacked-update cores (suc n) i core h =
    ap₂ ◌∷◌ (rw (ne→== i n (λ t. absurd (omega (arith, t)))) refl)
      (stacked-update cores n i core (omega arith))

-- A core that is put is the first of the pool.
pub pool_push-cons : (p : Pool) (core : Ptr) → contents (pool_push p core) ≡ core ∷ contents p
unfolding pool_push stacked
pool_push-cons p core =
    let next : p.top + 1 ≡ suc p.top = omega arith in
    rw (next, stacked)
      (ap₂ ◌∷◌ (rw (eq→== p.top p.top refl) refl)
        (stacked-update p.cores p.top p.top core (omega arith)))

-- What a pop may do: take the first core, or find the pool empty and change nothing.
abbrev pub Takes : Pool → Option Ptr → Pool → Type 0
Takes p none q = (contents p ≡ []) × (q ≡ p)
Takes p (some core) q = (contents p ≡ core ∷ contents q) × (q.cap ≡ p.cap) × (p.top ≡ suc q.top)

pub pool_pop-Takes : (p : Pool) → Takes p (pool_pop p).0 (pool_pop p).1
unfolding pool_pop stacked
pool_pop-Takes p = elim (Bool-cases (p.top == 0)) [
  | inl empty ↦
      rw empty (let none_left : p.top ≡ 0 = ground arith in ap (stacked p.cores) none_left, refl)
  | inr some_left ↦
      let last : p.top ≡ suc (p.top - 1) = ground arith in
      rw some_left (ap (stacked p.cores) last, refl, last)
]
