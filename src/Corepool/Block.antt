-- ===== src/Corepool/Block.antt =====
-- Blocking sections: no core is lost or in two places, whatever threads enter and leave them.
use shiyanhui_libcsp.Base.{
  ℕ, suc, ◌+◌, ◌<◌, ◌≡◌, refl, ap, subst, ◌∙◌, inl, inr, Bool, true, Bool-cases, ◌==◌,
  if◌then◌else◌, Option, none, some, Option-cases, List, [], ◌∷◌, arith, update, eq→==, length, has,
  times,
}
use shiyanhui_libcsp.Runq.{Ptr, null}
use shiyanhui_libcsp.Rbq.{Rbq}
use shiyanhui_libcsp.Rbq.Wait.{push}
use shiyanhui_libcsp.Corepool.{
  Pool, pool_push, pool_pop, Cores, get, put, Next, nobody, wakes, starts, take_over,
  block_prologue, run, block_epilogue,
}
use shiyanhui_libcsp.Corepool.Stack.{contents, pool_push-cons, Takes, pool_pop-Takes}

-- The list without the first `c`.
unfoldable pub remove : Ptr → List Ptr → List Ptr
remove c [] = []
remove c (x ∷ xs) = if x == c then xs else x ∷ remove c xs

times-remove :
    (c d : Ptr) (xs : List Ptr)
    → has c xs ≡ true
    → (times d (remove c xs) + times d (c ∷ []) ≡ times d xs)
      × (suc (length (remove c xs)) ≡ length xs)
unfolding remove
times-remove c d [] h = absurd (cc h)
times-remove c d (x ∷ xs) h = elim (Bool-cases (x == c)) [
  | inl here ↦ let same : x ≡ c = ground arith in rw (here, same) (omega arith, refl)
  | inr later ↦
      let (counts, len) = times-remove c d xs (rw later at h) in
      rw later (omega (arith, counts), ap suc len)
]

-- The cores whose threads run on the processor.
abbrev joins : Next → List Ptr → List Ptr
joins nobody act = act
joins (wakes c) act = c ∷ act
joins (starts c) act = c ∷ act

-- One of the threads of processor `pid` that run blocks, comes back, or begins to run.
pub data Step (pid : ℕ) : Cores → List Ptr → Cores → List Ptr → Type 0 where
  blocks :
      (create : Bool) (c : Ptr) (s : Cores) (act : List Ptr)
      → has c act ≡ true
      → s.pid c ≡ pid
      → Step pid s act (block_prologue create c s).1 (joins (block_prologue create c s).0 act)
  comes_back :
      (fuel : ℕ) (weak : ℕ → Bool × Bool) (others : ℕ → Rbq Ptr → Rbq Ptr) (c : Ptr) (s t : Cores)
      (act : List Ptr)
      → has c act ≡ true
      → s.pid c ≡ pid
      → block_epilogue fuel weak others c s ≡ some t
      → Step pid s act t (remove c act)
  begins : (c : Ptr) (s : Cores) (act : List Ptr) → Step pid s act (run c s) act

pub data Steps (pid : ℕ) : Cores → List Ptr → Cores → List Ptr → Type 0 where
  stop : (s : Cores) (act : List Ptr) → Steps pid s act s act
  go :
      {s t u : Cores} {act act1 act2 : List Ptr}
      → Step pid s act t act1
      → Steps pid t act1 u act2
      → Steps pid s act u act2

-- Every core that `owned` counts is in the pool or runs, just as often, and the pool has room for
-- those that run.
pub record Kept (pid : ℕ) (owned : Ptr → ℕ) (s : Cores) (act : List Ptr) : Type 0 where
  pub home : (c : Ptr) → 0 < owned c → s.pid c ≡ pid
  pub places : (c : Ptr) → times c (contents (s.pools pid)) + times c act ≡ owned c
  pub room : (s.pools pid).top + length act ≡ (s.pools pid).cap

module _ (pid : ℕ) (owned : Ptr → ℕ) where
  -- A pool with the same cores in place of the processor's.
  abbrev with_pool : Pool → Cores → Cores
  with_pool p s = record s { pools = update s.pools pid p }

  the_pool : (s : Cores) (p : Pool) → (with_pool p s).pools pid ≡ p
  the_pool s p = rw (eq→== pid pid refl) refl

  Kept-change :
      {s : Cores} {act : List Ptr} (t : Cores) (act1 : List Ptr) (p : Pool)
      → Kept pid owned s act
      → t.pools pid ≡ p
      → t.pid ≡ s.pid
      → ((c : Ptr)
          → times c (contents p) + times c act1 ≡ times c (contents (s.pools pid)) + times c act)
      → p.top + length act1 ≡ (s.pools pid).top + length act
      → p.cap ≡ (s.pools pid).cap
      → Kept pid owned t act1
  Kept-change t act1 p k pool pids same top cap = record {
    home = λ c h. ap (λ f. f c) pids ∙ k.home c h;
    places = λ c. rw pool (same c ∙ k.places c);
    room = rw pool (omega (arith, top, cap, k.room));
  }

  -- The first core of the pool is one of those that belong to the processor.
  first-home :
      {s : Cores} {act : List Ptr} (p1 : Pool) (c : Ptr)
      → Kept pid owned s act
      → contents (s.pools pid) ≡ c ∷ contents p1
      → s.pid c ≡ pid
  first-home p1 c k split =
      let here : times c (c ∷ contents p1) ≡ times c (contents p1) + 1 = rw (eq→== c c refl) refl in
      k.home c (omega (arith, k.places c, ap (times c) split, here))

  take_over-Kept :
      (create : Bool) (s : Cores) (act : List Ptr) (o : Option Ptr) (p1 : Pool)
      → Kept pid owned s act
      → Takes (s.pools pid) o p1
      → let r = take_over create o (with_pool p1 s) in Kept pid owned r.1 (joins r.0 act)
  unfolding take_over put
  take_over-Kept create s act none p1 k (empty, same) =
      Kept-change (with_pool p1 s) act p1 k (the_pool s p1) refl
        (λ c. ap (λ p. times c (contents p) + times c act) same)
        (ap (λ (p : Pool). p.top + length act) same) (ap (λ (p : Pool). p.cap) same)
  take_over-Kept create s act (some c) p1 k (split, cap, top) =
      let taken : Kept pid owned (with_pool p1 s) (c ∷ act) =
        Kept-change (with_pool p1 s) (c ∷ act) p1 k (the_pool s p1) refl
          (λ d. omega (arith, ap (times d) split)) (omega (arith, top)) cap in
      let back : Kept pid owned (put c (with_pool p1 s)) act =
        Kept-change (put c (with_pool p1 s)) act (pool_push p1 c) k
          (rw (first-home p1 c k split, eq→== pid pid refl) refl) refl
          (λ d. omega (arith, ap (times d) split, ap (times d) (pool_push-cons p1 c)))
          (omega (arith, top)) cap in
      elim (Bool-cases (s.inited c)) [
        | inl fresh ↦ elim (Bool-cases create) [
          | inl new ↦ rw (fresh, new) taken
          | inr fails ↦ rw (fresh, fails) back
        ]
        | inr asleep ↦ rw asleep taken
      ]

  put-Kept :
      (s t : Cores) (act : List Ptr) (c : Ptr)
      → Kept pid owned s act
      → has c act ≡ true
      → s.pid c ≡ pid
      → t.pid ≡ s.pid
      → t.pools ≡ s.pools
      → Kept pid owned (put c t) (remove c act)
  unfolding put
  put-Kept s t act c k runs at pids pools =
      let here : t.pid c ≡ pid = ap (λ f. f c) pids ∙ at in
      let same : t.pools pid ≡ s.pools pid = ap (λ f. f pid) pools in
      Kept-change (put c t) (remove c act) (pool_push (s.pools pid) c) k
        (rw (here, same, eq→== pid pid refl) refl) pids
        (λ d.
          omega
            (arith, ap (times d) (pool_push-cons (s.pools pid) c), (times-remove c d act runs).0))
        (omega (arith, (times-remove c c act runs).1)) refl

  epilogue-Kept :
      (fuel : ℕ) (weak : ℕ → Bool × Bool) (others : ℕ → Rbq Ptr → Rbq Ptr) (c : Ptr) (s t : Cores)
      (act : List Ptr)
      → Kept pid owned s act
      → has c act ≡ true
      → s.pid c ≡ pid
      → block_epilogue fuel weak others c s ≡ some t
      → Kept pid owned t (remove c act)
  unfolding block_epilogue
  epilogue-Kept fuel weak others c s t act k runs at done =
      elim (Option-cases (push fuel weak others (s.grunqs (s.pid c)) (s.running c))) [
        | inl stuck ↦ (let e = rw stuck at done in absurd (cc e))
        | inr (q, pushed) ↦
            let s1 : Cores = record s {
              grunqs = update s.grunqs (s.pid c) q;
              running = update s.running c null;
            } in
            let e : some (put c s1) ≡ some t = rw pushed at done in
            let same : put c s1 ≡ t = cc e in
            subst (λ x. Kept pid owned x (remove c act)) same
              (put-Kept s s1 act c k runs at refl refl)
      ]

  Step-Kept :
      {s t : Cores} {act act1 : List Ptr}
      → Step pid s act t act1
      → Kept pid owned s act
      → Kept pid owned t act1
  unfolding block_prologue get run
  Step-Kept (blocks create c s act runs at) k =
      let made =
        take_over-Kept create s act (pool_pop (s.pools pid)).0 (pool_pop (s.pools pid)).1 k
          (pool_pop-Takes (s.pools pid)) in
      rw at made
  Step-Kept (comes_back fuel weak others c s t act runs at done) k =
      epilogue-Kept fuel weak others c s t act k runs at done
  Step-Kept (begins c s act) k = record { home = k.home; places = k.places; room = k.room }

  -- Whatever threads of a processor block, come back and begin to run, in any order, every core that
  -- belongs to the processor stays in its pool or among those that run, just as often as before, and
  -- the pool has a free slot for each core that runs.
  pub Steps-Kept :
      (s t : Cores) (act act1 : List Ptr)
      → Steps pid s act t act1
      → Kept pid owned s act
      → Kept pid owned t act1
  Steps-Kept s t act act1 (stop _ _) k = k
  Steps-Kept s t act act1 (go {t = mid} {act1 = act2} first rest) k =
      Steps-Kept mid t act2 act1 rest (Step-Kept first k)
