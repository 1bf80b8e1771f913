-- ===== src/Rbq/Wait/Popm.antt =====
-- popm of src/rbq.h: how many rounds it takes, and what it gives.
use shiyanhui_libcsp.Base.{
  ℕ, zero, suc, ◌+◌, ◌-◌, ◌≤◌, ◌<◌, ◌≡◌, refl, sym, ap, ◌∙◌, inl, inr, Bool, false, List, [], ◌∷◌,
  ◌++◌, arith, ne→==, length, empty_or, length-append, append-nil, append_assoc, Option, none, some,
}
use shiyanhui_libcsp.Rbq.{Rbq, pop_many, try_pop}
use shiyanhui_libcsp.Rbq.Ring.{IsRing, contents}
use shiyanhui_libcsp.Rbq.Pop.{Pops, try_pop-Pops}
use shiyanhui_libcsp.Rbq.Popm.{pop_many-PopsMany}
use shiyanhui_libcsp.Rbq.Wait.{pop, popm_loop, popm}

-- No compare-exchange fails for no reason.
abbrev pub sure : ℕ → Bool × Bool
sure i = (false, false)

module _ {ℓ} {A : Type ℓ} where
  -- The other threads keep the ring well-formed, and push items `more`.
  pub record Adds (e : ℕ) (q q1 : Rbq A) : Type ℓ where
    pub ring : IsRing e q1
    pub more : List A
    pub items : contents q1 ≡ contents q ++ more

  -- The first `n` items have been taken, others may have come behind.
  pub record Took (e : ℕ) (q : Rbq A) (n : ℕ) (r : List A × Rbq A) : Type ℓ where
    pub ring : IsRing e r.1
    pub more : List A
    pub items : contents q ++ more ≡ r.0 ++ contents r.1
    pub count : length r.0 ≡ n

  Took-none : {e : ℕ} (q : Rbq A) → IsRing e q → Took e q 0 ([], q)
  Took-none q v = record { ring = v; more = []; items = append-nil (contents q); count = refl }

  -- A round that takes some, and the rounds behind it.
  Took-more :
      {e : ℕ} {q q0 q1 : Rbq A} {n : ℕ} (got : List A) (r : List A × Rbq A)
      → Adds e q q0
      → contents q0 ≡ got ++ contents q1
      → length got ≤ n
      → Took e q1 (n - length got) r
      → Took e q n (got ++ r.0, r.1)
  Took-more {q = q} {q1 = q1} got r a split few t = record {
    ring = t.ring;
    more = a.more ++ t.more;
    items =
        sym (append_assoc (contents q) a.more t.more)
        ∙ ap (λ l. l ++ t.more) (sym a.items ∙ split)
        ∙ append_assoc got (contents q1) t.more
        ∙ ap (λ l. got ++ l) t.items
        ∙ sym (append_assoc got r.0 (contents r.1));
    count = omega (arith, length-append got r.0, t.count, few);
  }

  abbrev Result : (e : ℕ) → Rbq A → ℕ → Option (List A × Rbq A) → Type ℓ
  Result e q n o = (r : List A × Rbq A) × (o ≡ some r) × Took e q n r

  module _ (e : ℕ) where
    popm_loop-Took :
        (fuel : ℕ) (others : ℕ → Rbq A → Rbq A) (q : Rbq A) (n : ℕ)
        → ((i : ℕ) (q : Rbq A) → IsRing e q → Adds e q (others i q))
        → IsRing e q
        → n ≤ length (contents q)
        → n < fuel
        → Result e q n (popm_loop fuel sure others q n)
    unfolding popm_loop
    popm_loop-Took zero others q n adds v some_left enough = absurd (omega arith)
    popm_loop-Took (suc fuel) others q zero adds v some_left enough = (([], q), refl, Took-none q v)
    popm_loop-Took (suc fuel) others q (suc n) adds v some_left enough =
        let a : Adds e q (others 0 q) = adds 0 q v in
        let p = pop_many-PopsMany false false (others 0 q) (suc n) a.ring (omega arith) in
        let (got, q1) = pop_many false false (others 0 q) (suc n) in
        let all = ap length a.items ∙ length-append (contents q) a.more in
        let parts = ap length p.items ∙ length-append got (contents q1) in
        let some_got : 0 < length got = elim (empty_or got) [
          | inl e0 ↦ absurd (omega (arith, p.answer refl refl (omega arith) e0))
          | inr l ↦ l
        ] in
        let (r, done, t) =
          popm_loop-Took fuel (λ i. others (i + 1)) q1 (suc n - length got) (λ i. adds (i + 1))
            p.ring (omega (arith, p.few)) (omega arith) in
        (
          (got ++ r.0, r.1),
          rw (ne→== (suc n) 0 (λ t. absurd (omega (arith, t))), done) refl,
          Took-more got r a p.items p.few t,
        )

    -- A wait for one item that is there already.
    pop-Took :
        (fuel : ℕ) (others : ℕ → Rbq A → Rbq A) (q : Rbq A)
        → ((i : ℕ) (q : Rbq A) → IsRing e q → Adds e q (others i q))
        → IsRing e q
        → 1 ≤ length (contents q)
        → (x : A) × (q1 : Rbq A) × (pop (suc fuel) sure others q ≡ some (x, q1))
          × Took e q 1 (x ∷ [], q1)
    unfolding pop
    pop-Took fuel others q adds v some_left =
        let a : Adds e q (others 0 q) = adds 0 q v in
        let p = try_pop-Pops false false (others 0 q) a.ring in
        let all = ap length a.items ∙ length-append (contents q) a.more in
        let (item, q1) = try_pop false false (others 0 q) in one a all item q1 p
      where
        one :
            (a : Adds e q (others 0 q))
            → length (contents (others 0 q)) ≡ length (contents q) + length a.more
            → (item : Option A) (q1 : Rbq A) → Pops e false false (others 0 q) (item, q1)
            → (x : A) × (q2 : Rbq A) × (elim item [
              | some x ↦ some (x, q1)
              | none ↦ pop fuel sure (λ i. others (i + 1)) q1
            ]
                ≡ some (x, q2))
              × Took e q 1 (x ∷ [], q2)
        one a all none q1 p = absurd (omega (arith, p.answer refl refl refl, some_left))
        one a all (some x) q1 p = (
          x,
          q1,
          refl,
          record { ring = p.ring; more = a.more; items = sym a.items ∙ p.items; count = refl },
        )

    -- `popm` of `n` items that are all in a well-formed ring, where no compare-exchange fails, returns
    -- within `n + 1` rounds, whatever other threads push meanwhile: it gives the first `n` items of the
    -- contents in order, and the ring keeps the others, with what was pushed behind them.
    pub popm-Took :
        (others : ℕ → Rbq A → Rbq A) (q : Rbq A) (n : ℕ)
        → ((i : ℕ) (q : Rbq A) → IsRing e q → Adds e q (others i q))
        → IsRing e q
        → n ≤ length (contents q)
        → Result e q n (popm (n + 1) sure others q n)
    unfolding popm
    popm-Took others q zero adds v some_left = (([], q), refl, Took-none q v)
    popm-Took others q (suc zero) adds v some_left =
        let (x, q1, done, t) = pop-Took 1 others q adds v some_left in
        ((x ∷ [], q1), rw (popm, done) refl, t)
    popm-Took others q (suc (suc n)) adds v some_left =
        popm_loop-Took (suc (suc n) + 1) others q (suc (suc n)) adds v some_left (omega arith)
