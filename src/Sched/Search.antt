-- ===== src/Sched/Search.antt =====
-- The search of csp_sched_get, src/sched.c: it takes the first process of one queue, or there is none.
use shiyanhui_libcsp.Base.{
  ℕ, ◌+◌, ◌%◌, ◌^◌, ◌<◌, ◌≤◌, ◌≡◌, ◌≢◌, ◌⊎◌, inl, inr, refl, sym, ap, ◌∙◌, arith, Bool, false,
  Option, none, some, List, [], ◌∷◌, ◌==◌, Bool-cases, update, length, subst, subst₂, eq→==, ◌>>=◌,
}
use shiyanhui_libcsp.Runq.{Ptr, Lrunq, Popped, ok, failed, missed}
use shiyanhui_libcsp.Runq.Chain.{IsQueue}
use shiyanhui_libcsp.Runq.Refine.{pop_spec, try_pop_front-pop_spec}
use shiyanhui_libcsp.Rbq.Ring.{IsRing, contents}
use shiyanhui_libcsp.Sched.{
  Sched, pop_local, pop_global, if_ok, on_miss, by_code, own_queues, steal, search,
}
use shiyanhui_libcsp.Sched.Steal.{
  turn, turn-covers, Rings, Global, pop_global-Global, Steals, steal-Steals, kept-none,
}

-- The local queue stands for `xs`, and has been popped fewer than 2^63 times.
abbrev pub Holds : ℕ → List Ptr → Sched → Type 0
Holds pid xs s = IsQueue s.links (s.lrunqs pid) xs × ((s.lrunqs pid).poped_times + 2 < 2 ^ 63)

-- A pop of the local queue in its three cases.
record Popping (pid : ℕ) (xs : List Ptr) (s : Sched) (a : Popped) (s' : Sched) : Type 0 where
  left : List Ptr
  queue : IsQueue s'.links (s'.lrunqs pid) left
  grunqs : s'.grunqs ≡ s.grunqs
  times : (s'.lrunqs pid).poped_times ≤ (s.lrunqs pid).poped_times + 1
  answer :
      ((a ≡ missed)
        × (left ≡ xs)
        × ((s.lrunqs pid).poped_times % 32 ≡ 31)
        × ((s'.lrunqs pid).poped_times % 32 ≡ 0))
      ⊎ (((a ≡ failed) × (left ≡ []) × (xs ≡ [])) ⊎ ((p : Ptr) × (a ≡ ok p) × (xs ≡ p ∷ left)))

answer_by :
    (pid : ℕ) (xs : List Ptr) (s : Sched) (a : Popped) (s' : Sched)
    → let t = (s.lrunqs pid).poped_times in
      s'.grunqs ≡ s.grunqs
      → a ≡ (pop_spec t xs).0
      → IsQueue s'.links (s'.lrunqs pid) (pop_spec t xs).1
      → (s'.lrunqs pid).poped_times ≡ (pop_spec t xs).2
      → Popping pid xs s a s'
unfolding pop_spec
answer_by pid xs s a s' g e q n = elim (Bool-cases ((s.lrunqs pid).poped_times % 32 == 31)) [
  | inl miss ↦
      let times : (s'.lrunqs pid).poped_times ≡ (s.lrunqs pid).poped_times + 1 = rw miss at n in
      let turn : (s.lrunqs pid).poped_times % 32 ≡ 31 = ground arith in
      record {
        left = xs;
        queue = rw miss at q;
        grunqs = g;
        times = omega arith;
        answer = inl (rw miss at e, refl, turn, omega arith);
      }
  | inr turn ↦ by_items xs (rw turn at e) (rw turn at q) (rw turn at n)
]
  where
    by_items :
        (ys : List Ptr)
        → let t = (s.lrunqs pid).poped_times in
          let spec : Popped × List Ptr × ℕ = elim ys [
            | [] ↦ (failed, [], t)
            | x ∷ rest ↦ (ok x, rest, t + 1)
          ] in
          a ≡ spec.0
          → IsQueue s'.links (s'.lrunqs pid) spec.1
          → (s'.lrunqs pid).poped_times ≡ spec.2
          → Popping pid ys s a s'
    by_items [] e q n = record {
      left = [];
      queue = q;
      grunqs = g;
      times = omega arith;
      answer = inr (inl (e, refl, refl));
    }
    by_items (x ∷ rest) e q n = record {
      left = rest;
      queue = q;
      grunqs = g;
      times = omega arith;
      answer = inr (inr (x, e, refl));
    }

pop_local-Popping :
    (pid : ℕ) (xs : List Ptr) (s : Sched)
    → IsQueue s.links (s.lrunqs pid) xs
    → (s.lrunqs pid).poped_times + 1 < 2 ^ 63
    → (r : Popped × Sched) × (pop_local pid s ≡ some r) × Popping pid xs s r.0 r.1
unfolding pop_local
pop_local-Popping pid xs s v t =
    let (r, done, a, q, n, d) = try_pop_front-pop_spec s.links (s.lrunqs pid) xs v t in
    let s1 : Sched = record s { lrunqs = update s.lrunqs pid r.1; links = r.2 } in
    let here : s1.lrunqs pid ≡ r.1 = rw (eq→== pid pid refl) refl in
    (
      (r.0, s1),
      rw done refl,
      answer_by pid xs s r.0 s1 refl a
          (subst (λ l. IsQueue r.2 l (pop_spec (s.lrunqs pid).poped_times xs).1) (sym here) q)
          (ap (λ (l : Lrunq). l.poped_times) here ∙ n),
    )

-- The global queues have the same processes.
abbrev pub Kept : Sched → Sched → Type 0
Kept s s' = (g : ℕ) → contents (s'.grunqs g) ≡ contents (s.grunqs g)

-- Process `p` was first in the local queue or in one global queue, and only that queue loses it.
abbrev pub Taken : (pid : ℕ) → List Ptr → Sched → Ptr → Sched → Type 0
Taken pid xs s p s' =
    ((ys : List Ptr) × (xs ≡ p ∷ ys) × IsQueue s'.links (s'.lrunqs pid) ys × Kept s s')
    ⊎ ((from : ℕ) × (contents (s.grunqs from) ≡ p ∷ contents (s'.grunqs from))
        × ((g : ℕ) → g ≢ from → contents (s'.grunqs g) ≡ contents (s.grunqs g))
        × IsQueue s'.links (s'.lrunqs pid) xs)

-- What the processor's own queues give: a process, or the local queue has none.
abbrev Own : (e pid : ℕ) → List Ptr → Sched → Option Ptr → Sched → Type 0
Own e pid xs s (some p) s' = Taken pid xs s p s'
Own e pid xs s none s' = (xs ≡ []) × IsQueue s'.links (s'.lrunqs pid) [] × Kept s s' × Rings e s'

-- The second pop of the local queue, behind a miss, is none itself.
second_pop :
    (e pid : ℕ) (xs : List Ptr) (s s1 : Sched) (a : Popped) (s2 : Sched)
    → (s1.lrunqs pid).poped_times % 32 ≡ 0
    → Kept s s1
    → Rings e s1
    → Popping pid xs s1 a s2
    → Own e pid xs s (if_ok a) s2
second_pop e pid xs s s1 a s2 turn kept v p =
    let same : Kept s1 s2 = λ g. ap (λ q. contents (q g)) p.grunqs in
    elim p.answer [
      | inl miss ↦ absurd (omega (arith, miss.2))
      | inr (inl fail) ↦ rw fail.0 (
        fail.2,
        subst (IsQueue s2.links (s2.lrunqs pid)) fail.1 p.queue,
        λ g. same g ∙ kept g,
        λ g. subst (λ q. IsRing e (q g)) (sym p.grunqs) (v g),
      )
      | inr (inr (x, got, split)) ↦ rw got (inl (p.left, split, p.queue, λ g. same g ∙ kept g))
    ]

on_miss-Own :
    (e pid : ℕ) (weak : Bool × Bool) (xs : List Ptr) (s s1 : Sched)
    → weak ≡ (false, false)
    → Rings e s1
    → Kept s s1
    → IsQueue s1.links (s1.lrunqs pid) xs
    → (s1.lrunqs pid).poped_times + 1 < 2 ^ 63
    → (s1.lrunqs pid).poped_times % 32 ≡ 0
    → (r : Option Ptr × Sched) × (on_miss weak pid s1 ≡ some r) × Own e pid xs s r.0 r.1
unfolding on_miss
on_miss-Own e pid weak xs s s1 w v kept queue t turn =
    let g = pop_global-Global e pid weak s1 v in
    let (o, s2) = pop_global weak pid s1 in by_item o s2 g
  where
    by_item :
        (o : Option Ptr) (s2 : Sched)
        → Global e pid weak s1 (o, s2)
        → (r : Option Ptr × Sched) × ((elim o [
          | some p ↦ some (some p, s2)
          | none ↦ pop_local pid s2 >>= (λ u. some (if_ok u.0, u.1))
        ])
            ≡ some r)
          × Own e pid xs s r.0 r.1
    by_item (some p) s2 g = (
      (some p, s2),
      refl,
      inr (
        pid,
        sym (kept pid) ∙ g.first,
        λ q ne. ap contents (g.others q ne) ∙ kept q,
        subst₂ (λ l h. IsQueue h (l pid) xs) (sym g.lrunqs) (sym g.links) queue,
      ),
    )
    by_item none s2 g =
        let queue2 = subst₂ (λ l h. IsQueue h (l pid) xs) (sym g.lrunqs) (sym g.links) queue in
        let same : (s2.lrunqs pid).poped_times ≡ (s1.lrunqs pid).poped_times =
          ap (λ l. (l pid).poped_times) g.lrunqs in
        let (r, done, p) = pop_local-Popping pid xs s2 queue2 (omega arith) in
        (
          (if_ok r.0, r.1),
          rw done refl,
          second_pop e pid xs s s2 r.0 r.1 (omega arith)
              (λ q. kept-none e pid weak s1 s2 g q ∙ kept q) g.rings p,
        )

own_queues-Own :
    (e pid : ℕ) (weak : Bool × Bool) (xs : List Ptr) (s : Sched)
    → weak ≡ (false, false)
    → Rings e s
    → Holds pid xs s
    → (r : Option Ptr × Sched) × (own_queues weak pid s ≡ some r) × Own e pid xs s r.0 r.1
unfolding own_queues by_code
own_queues-Own e pid weak xs s w v (queue, t) =
    let (r, done, p) = pop_local-Popping pid xs s queue (omega arith) in
    let kept : Kept s r.1 = λ g. ap (λ q. contents (q g)) p.grunqs in
    let rings : Rings e r.1 = λ g. subst (λ q. IsRing e (q g)) (sym p.grunqs) (v g) in
    elim p.answer [
      | inl miss ↦
          let same = subst (IsQueue r.1.links (r.1.lrunqs pid)) miss.1 p.queue in
          let (u, after, own) =
            on_miss-Own e pid weak xs s r.1 w rings kept same (omega (arith, p.times)) miss.3 in
          (u, rw (done, miss.0) after, own)
      | inr (inl fail) ↦ (
        (none, r.1),
        rw (done, fail.0) refl,
        (fail.2, subst (IsQueue r.1.links (r.1.lrunqs pid)) fail.1 p.queue, kept, rings),
      )
      | inr (inr (x, got, split)) ↦
          ((some x, r.1), rw (done, got) refl, inl (p.left, split, p.queue, kept))
    ]

-- What the search of one round comes to.
abbrev pub Searched : (np pid : ℕ) → List Ptr → Sched → Option Ptr → Sched → Type 0
Searched np pid xs s (some p) s' = Taken pid xs s p s'
Searched np pid xs s none s' = (xs ≡ []) × ((g : ℕ) → g < np → length (contents (s.grunqs g)) ≡ 0)

-- The global queues, once the own ones gave nothing.
stolen-Searched :
    (e np pid : ℕ) (s s1 : Sched) (xs : List Ptr) (o : Option Ptr) (s2 : Sched)
    → pid < np
    → Own e pid xs s none s1
    → Steals e np np pid s1 o s2
    → Searched np pid xs s o s2
stolen-Searched e np pid s s1 xs none s2 lt own t = (
  own.0,
  λ g h.
      let (j, below, at) = turn-covers np pid g lt h in
      ap length (sym (own.2 g)) ∙ subst (λ q. length (contents (s1.grunqs q)) ≡ 0) at (t.0 j below),
)
stolen-Searched e np pid s s1 xs (some p) s2 lt own t = inr (
  t.from,
  sym (own.2 t.from) ∙ t.first,
  λ g ne. t.others g ne ∙ own.2 g,
  rw own.0 (subst₂ (λ l h. IsQueue h (l pid) []) (sym t.lrunqs) (sym t.links) own.1),
)

-- The search of csp_sched_get does not fault where the local queue stands for `xs` and the global
-- queues are well-formed. Where no compare-exchange fails, a process that it gives was the first of
-- the local or of one global queue, and no other queue changes; it gives none only if the local
-- queue and the global queues of all `np` processors are empty.
pub search-Searched :
    (e np pid : ℕ) (weak : ℕ → Bool × Bool) (xs : List Ptr) (s : Sched)
    → pid < np
    → ((i : ℕ) → weak i ≡ (false, false))
    → Rings e s
    → Holds pid xs s
    → (r : Option Ptr × Sched) × (search weak np pid s ≡ some r) × Searched np pid xs s r.0 r.1
unfolding search
search-Searched e np pid weak xs s lt w v q =
    let ((o, s1), done, own) = own_queues-Own e pid (weak np) xs s (w np) v q in
    rw done (by_own o s1 own)
  where
    by_own :
        (o : Option Ptr) (s1 : Sched)
        → Own e pid xs s o s1
        → (r : Option Ptr × Sched) × ((elim o [
          | some p ↦ some (some p, s1)
          | none ↦ some (steal weak np np pid s1)
        ])
            ≡ some r)
          × Searched np pid xs s r.0 r.1
    by_own (some p) s1 own = ((some p, s1), refl, own)
    by_own none s1 own = (
      steal weak np np pid s1,
      refl,
      stolen-Searched e np pid s s1 xs _ _ lt own (steal-Steals e np np pid weak s1 w own.3),
    )
