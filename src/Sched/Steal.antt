-- ===== src/Sched/Steal.antt =====
-- The loop of csp_sched_get over the global queues, src/sched.c.
use shiyanhui_libcsp.Base.{
  ℕ, zero, suc, ◌+◌, ◌-◌, ◌<◌, ◌≤◌, ◌≡◌, ◌≢◌, inl, inr, refl, sym, ap, ◌∙◌, arith, Bool, false,
  Option, none, some, ◌∷◌, ◌==◌, Bool-cases, update, length, subst, eq→==, ne→==,
}
use native.Mathlib.Decide.{dec_lt}
use shiyanhui_libcsp.Runq.{Ptr}
use shiyanhui_libcsp.Rbq.{try_pop}
use shiyanhui_libcsp.Rbq.Ring.{IsRing, contents}
use shiyanhui_libcsp.Rbq.Pop.{try_pop-Pops}
use shiyanhui_libcsp.Sched.{Sched, pop_global, next_pid, steal}

-- The global queue that comes `j` turns after the one of `pid`.
abbrev pub turn : (np pid j : ℕ) → ℕ
turn np pid zero = pid
turn np pid (suc j) = turn np (next_pid np pid) j

turn-direct : (np pid j : ℕ) → pid + j < np → turn np pid j ≡ pid + j
turn-direct np pid zero h = omega arith
turn-direct np pid (suc j) h =
    let next : next_pid np pid ≡ pid + 1 = ground arith in
    turn-direct np (next_pid np pid) j (omega arith) ∙ omega arith

turn-wrapped :
    (np pid j : ℕ) → pid < np → np ≤ pid + j → pid + j < np + np → turn np pid j ≡ pid + j - np
turn-wrapped np pid zero p lo hi = absurd (omega arith)
turn-wrapped np pid (suc j) p lo hi = elim (Bool-cases (pid + 1 == np)) [
  | inl last ↦
      let next : next_pid np pid ≡ 0 = ground arith in
      let end : pid + 1 ≡ np = ground arith in
      turn-direct np (next_pid np pid) j (omega arith) ∙ omega arith
  | inr more ↦
      let next : next_pid np pid ≡ pid + 1 = ground arith in
      let below : pid + 1 ≢ np = ground arith in
      turn-wrapped np (next_pid np pid) j (omega arith) (omega arith) (omega arith) ∙ omega arith
]

-- `np` turns reach every queue.
pub turn-covers : (np pid g : ℕ) → pid < np → g < np → (j : ℕ) × (j < np) × (turn np pid j ≡ g)
turn-covers np pid g p h = elim (dec_lt g pid) [
  | yes before ↦ (
    g + np - pid,
    omega arith,
    turn-wrapped np pid (g + np - pid) p (omega arith) (omega arith) ∙ omega arith,
  )
  | no behind ↦ (g - pid, omega arith, turn-direct np pid (g - pid) (omega arith) ∙ omega arith)
]

abbrev pub Rings : ℕ → Sched → Type 0
Rings e s = (g : ℕ) → IsRing e (s.grunqs g)

-- A pop of a global queue takes its first process, or changes no contents.
pub record Global (e pid : ℕ) (weak : Bool × Bool) (s : Sched) (r : Option Ptr × Sched)
    : Type 0 where
  pub rings : Rings e r.1
  pub first :
      contents (s.grunqs pid)
      ≡ elim r.0 [ none ↦ contents (r.1.grunqs pid) | some p ↦ p ∷ contents (r.1.grunqs pid) ]
  pub others : (g : ℕ) → g ≢ pid → r.1.grunqs g ≡ s.grunqs g
  pub lrunqs : r.1.lrunqs ≡ s.lrunqs
  pub links : r.1.links ≡ s.links
  pub empty : weak ≡ (false, false) → r.0 ≡ none → length (contents (s.grunqs pid)) ≡ 0

pub pop_global-Global :
    (e pid : ℕ) (weak : Bool × Bool) (s : Sched)
    → Rings e s
    → Global e pid weak s (pop_global weak pid s)
unfolding pop_global
pop_global-Global e pid weak s v =
    let r = try_pop-Pops weak.0 weak.1 (s.grunqs pid) (v pid) in
    let q = (try_pop weak.0 weak.1 (s.grunqs pid)).1 in
    let here : update s.grunqs pid q pid ≡ q = rw (eq→== pid pid refl) refl in
    record {
      rings = λ g. elim (Bool-cases (pid == g)) [
        | inl same ↦ rw same r.ring
        | inr other ↦ rw other (v g)
      ];
      first =
          subst
            (λ x. contents (s.grunqs pid) ≡ elim (try_pop weak.0 weak.1 (s.grunqs pid)).0 [
              | none ↦ contents x
              | some p ↦ p ∷ contents x
            ])
            (sym here) r.items;
      others = λ g ne. rw (ne→== pid g (λ t. ne (sym t))) refl;
      lrunqs = refl;
      links = refl;
      empty = λ w e. r.answer (ap (λ (t : Bool × Bool). t.0) w) (ap (λ (t : Bool × Bool). t.1) w) e;
    }

-- What a search for a process takes from the global queues.
pub record Stolen (e : ℕ) (s : Sched) (p : Ptr) (s' : Sched) : Type 0 where
  pub from : ℕ
  pub first : contents (s.grunqs from) ≡ p ∷ contents (s'.grunqs from)
  pub others : (g : ℕ) → g ≢ from → contents (s'.grunqs g) ≡ contents (s.grunqs g)
  pub lrunqs : s'.lrunqs ≡ s.lrunqs
  pub links : s'.links ≡ s.links

-- The loop over the global queues takes the first process of one, or the `n` queues are empty.
abbrev pub Steals : (e np n pid : ℕ) → Sched → Option Ptr → Sched → Type 0
Steals e np n pid s (some p) s' = Stolen e s p s'
Steals e np n pid s none s' =
    ((j : ℕ) → j < n → length (contents (s.grunqs (turn np pid j))) ≡ 0)
    × (s'.lrunqs ≡ s.lrunqs)
    × (s'.links ≡ s.links)

-- A pop that gave nothing changed no contents.
pub kept-none :
    (e pid : ℕ) (weak : Bool × Bool) (s s1 : Sched)
    → Global e pid weak s (none, s1)
    → (q : ℕ) → contents (s1.grunqs q) ≡ contents (s.grunqs q)
kept-none e pid weak s s1 g q = elim (Bool-cases (pid == q)) [
  | inl same ↦
      let eq : pid ≡ q = ground arith in
      subst (λ x. contents (s1.grunqs x) ≡ contents (s.grunqs x)) eq (sym g.first)
  | inr other ↦ ap contents (g.others q (ground arith))
]

-- A queue that gave nothing comes first.
Steals-none :
    (e np n pid : ℕ) (weak : Bool × Bool) (s s1 : Sched) (o : Option Ptr) (s' : Sched)
    → weak ≡ (false, false)
    → Global e pid weak s (none, s1)
    → Steals e np n (next_pid np pid) s1 o s'
    → Steals e np (suc n) pid s o s'
Steals-none e np n pid weak s s1 none s' w g t = ((λ j lt. at j lt), t.1 ∙ g.lrunqs, t.2 ∙ g.links)
  where
    at : (j : ℕ) → j < suc n → length (contents (s.grunqs (turn np pid j))) ≡ 0
    at zero lt = g.empty w refl
    at (suc j) lt =
        ap length (sym (kept-none e pid weak s s1 g (turn np (next_pid np pid) j)))
        ∙ t.0 j (omega arith)
Steals-none e np n pid weak s s1 (some p) s' w g t = record {
  from = t.from;
  first = sym (kept-none e pid weak s s1 g t.from) ∙ t.first;
  others = λ q ne. t.others q ne ∙ kept-none e pid weak s s1 g q;
  lrunqs = t.lrunqs ∙ g.lrunqs;
  links = t.links ∙ g.links;
}

steal_by :
    (e np n pid : ℕ) (weak : ℕ → Bool × Bool) (s : Sched) (o : Option Ptr) (s1 : Sched)
    → weak n ≡ (false, false)
    → Global e pid (weak n) s (o, s1)
    → Steals e np n
        (next_pid np pid)
        s1
        (steal weak np n (next_pid np pid) s1).0
        (steal weak np n (next_pid np pid) s1).1
    → let r : Option Ptr × Sched = elim o [
      | some p ↦ (some p, s1)
      | none ↦ steal weak np n (next_pid np pid) s1
    ] in
      Steals e np (suc n) pid s r.0 r.1
steal_by e np n pid weak s none s1 w g t = Steals-none e np n pid (weak n) s s1 _ _ w g t
steal_by e np n pid weak s (some p) s1 w g t = record {
  from = pid;
  first = g.first;
  others = λ q ne. ap contents (g.others q ne);
  lrunqs = g.lrunqs;
  links = g.links;
}

pub steal-Steals :
    (e np n pid : ℕ) (weak : ℕ → Bool × Bool) (s : Sched)
    → ((i : ℕ) → weak i ≡ (false, false))
    → Rings e s
    → Steals e np n pid s (steal weak np n pid s).0 (steal weak np n pid s).1
unfolding steal
steal-Steals e np zero pid weak s w v = (λ j lt. absurd (omega arith), refl, refl)
steal-Steals e np (suc n) pid weak s w v =
    let g = pop_global-Global e pid (weak n) s v in
    let (o, s1) = pop_global (weak n) pid s in
    steal_by e np n pid weak s o s1 (w n) g
      (steal-Steals e np n (next_pid np pid) weak s1 w g.rings)
