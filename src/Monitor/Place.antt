-- ===== src/Monitor/Place.antt =====
-- The search for a global queue with room, and what the queues get.
use native.Mathlib.Nat.{add-mod_left, mod-eq_of_lt}
use shiyanhui_libcsp.Base.{
  ℕ, zero, suc, ◌+◌, ◌-◌, ◌%◌, ◌^◌, ◌≤◌, ◌<◌, ◌≡◌, ◌≢◌, refl, sym, ap, ap₂, ◌∙◌, inl, inr, Bool,
  true, false, Bool-cases, ◌==◌, leb, leb→le, le→leb, if◌then◌else◌, List, [], ◌++◌, append-nil,
  append_assoc, arith, update, eq→==, ne→==, length, length-append, some, times, times-append,
  total, total_add, total_ext, total_single,
}
use shiyanhui_libcsp.Runq.{Ptr}
use shiyanhui_libcsp.Rbq.{Rbq, try_pushm}
use shiyanhui_libcsp.Rbq.Ring.{IsRing, contents}
use shiyanhui_libcsp.Rbq.Pushm.{try_pushm-PushesAll}
use shiyanhui_libcsp.Monitor.{push_procs}

-- No compare-exchange fails for no reason.
abbrev pub sure : ℕ → Bool × Bool
sure i = (false, false)

-- The queues of `np` processors have got the processes `xs`, each process in exactly one of the parts.
pub record Spread (e np : ℕ) (gs : ℕ → Rbq Ptr) (xs : List Ptr) (gs1 : ℕ → Rbq Ptr) : Type 0 where
  pub rings : (k : ℕ) → IsRing e (gs1 k)
  pub parts : ℕ → List Ptr
  pub grown : (k : ℕ) → contents (gs1 k) ≡ contents (gs k) ++ parts k
  pub exact : (p : Ptr) → total np (λ k. times p (parts k)) ≡ times p xs
  pub fits : (k : ℕ) → length (parts k) ≤ length xs
  pub used : (k : ℕ) → (gs1 k).fast.next ≤ (gs k).fast.next + length xs

-- One part at one queue.
only : ℕ → List Ptr → ℕ → List Ptr
only pid xs k = if k == pid then xs else []

times-only :
    (np pid : ℕ) (xs : List Ptr) (p : Ptr)
    → pid < np
    → total np (λ k. times p (only pid xs k)) ≡ times p xs
unfolding only
times-only np pid xs p lt =
    total_ext np _ _ (λ k. at k (k == pid)) ∙ total_single np pid (times p xs) lt
  where
    at : (k : ℕ) (b : Bool) → times p (if b then xs else []) ≡ (if b then times p xs else 0)
    at k true = refl
    at k false = refl

pushed-Spread :
    (e np : ℕ) (gs : ℕ → Rbq Ptr) (xs : List Ptr) (pid : ℕ) (q : Rbq Ptr)
    → ((k : ℕ) → IsRing e (gs k))
    → pid < np
    → IsRing e q
    → contents q ≡ contents (gs pid) ++ xs
    → q.fast.next ≤ (gs pid).fast.next + length xs
    → Spread e np gs xs (update gs pid q)
unfolding only
pushed-Spread e np gs xs pid q rings lt ring items used = record {
  rings = λ k. elim (Bool-cases (pid == k)) [
    | inl here ↦ rw here ring
    | inr other ↦ rw other (rings k)
  ];
  parts = only pid xs;
  grown = λ k. elim (Bool-cases (pid == k)) [
    | inl here ↦
        let same : pid ≡ k = ground arith in
        rw (here, eq→== k pid (sym same)) (items ∙ ap (λ i. contents (gs i) ++ xs) same)
    | inr other ↦
        let apart : k ≢ pid = λ t. cc (eq→== pid k (sym t)) in
        rw (other, ne→== k pid apart) (sym (append-nil (contents (gs k))))
  ];
  exact = λ p. times-only np pid xs p lt;
  fits = λ k. elim (Bool-cases (k == pid)) [
    | inl here ↦ rw here (omega arith)
    | inr other ↦ rw other (omega arith)
  ];
  used = λ k. elim (Bool-cases (pid == k)) [
    | inl here ↦
        let same : pid ≡ k = ground arith in
        rw here (omega (arith, used, ap (λ i. (gs i).fast.next) same))
    | inr other ↦ rw other (omega arith)
  ];
}

-- The queues before may be others with the same items.
Spread-from :
    {e np : ℕ} {gs gs0 gs1 : ℕ → Rbq Ptr} {xs : List Ptr}
    → ((k : ℕ) → contents (gs0 k) ≡ contents (gs k))
    → ((k : ℕ) → (gs0 k).fast.next ≤ (gs k).fast.next)
    → Spread e np gs0 xs gs1
    → Spread e np gs xs gs1
Spread-from same le t = record {
  rings = t.rings;
  parts = t.parts;
  grown = λ k. t.grown k ∙ ap (λ l. l ++ t.parts k) (same k);
  exact = t.exact;
  fits = t.fits;
  used = λ k. omega (arith, t.used k, le k);
}

-- Two parts one after the other.
pub Spread-append :
    {e np : ℕ} {gs gs1 gs2 : ℕ → Rbq Ptr} (xs ys : List Ptr)
    → Spread e np gs xs gs1
    → Spread e np gs1 ys gs2
    → Spread e np gs (xs ++ ys) gs2
Spread-append {np = np} xs ys t u = record {
  rings = u.rings;
  parts = λ k. t.parts k ++ u.parts k;
  grown = λ k.
      u.grown k ∙ ap (λ l. l ++ u.parts k) (t.grown k) ∙ append_assoc _ (t.parts k) (u.parts k);
  exact = λ p.
      total_ext np _ _ (λ k. times-append p (t.parts k) (u.parts k))
      ∙ total_add np (λ k. times p (t.parts k)) (λ k. times p (u.parts k))
      ∙ ap₂ ◌+◌ (t.exact p) (u.exact p)
      ∙ sym (times-append p xs ys);
  fits = λ k.
      omega (arith, length-append (t.parts k) (u.parts k), length-append xs ys, t.fits k, u.fits k);
  used = λ k. omega (arith, length-append xs ys, t.used k, u.used k);
}

next_of : (np pid : ℕ) → ℕ
next_of np pid = if leb np (pid + 1) then 0 else pid + 1

next_of-reaches :
    (np pid d k : ℕ)
    → pid < np
    → (pid + suc d) % np ≡ k
    → (next_of np pid < np) × ((next_of np pid + d) % np ≡ k)
unfolding next_of
next_of-reaches np pid d k lt far = elim (Bool-cases (leb np (pid + 1))) [
  | inl wraps ↦
      let last : pid + suc d ≡ np + d = ground arith in
      let zero_add : 0 + d ≡ d = omega arith in
      rw wraps (
        omega arith,
        ap (λ t. t % np) zero_add ∙ sym (add-mod_left np d) ∙ ap (λ t. t % np) (sym last) ∙ far,
      )
  | inr goes_on ↦
      let one : pid + 1 + d ≡ pid + suc d = omega arith in
      rw goes_on (ground arith, ap (λ t. t % np) one ∙ far)
]

-- Where the queue with room is another one, it is at least one step away.
not_here : (np pid d k : ℕ) → pid < np → (pid + d) % np ≡ k → pid ≢ k → (c : ℕ) × (d ≡ suc c)
not_here np pid zero k lt far apart =
    let none_left : pid + 0 ≡ pid = omega arith in
    absurd (apart (sym (mod-eq_of_lt lt) ∙ ap (λ t. t % np) (sym none_left) ∙ far))
not_here np pid (suc c) k lt far apart = (c, refl)

-- A try that finds no room.
missed :
    {e : ℕ} (gs : ℕ → Rbq Ptr) (pid : ℕ) (q : Rbq Ptr)
    → ((j : ℕ) → IsRing e (gs j))
    → IsRing e q
    → contents q ≡ contents (gs pid)
    → q.fast.next ≤ (gs pid).fast.next
    → ((j : ℕ) → IsRing e (update gs pid q j))
      × ((j : ℕ) → contents (update gs pid q j) ≡ contents (gs j))
      × ((j : ℕ) → (update gs pid q j).fast.next ≤ (gs j).fast.next)
missed gs pid q rings ring items used = (
  λ j. elim (Bool-cases (pid == j)) [ inl here ↦ rw here ring | inr other ↦ rw other (rings j) ],
  λ j. elim (Bool-cases (pid == j)) [
    | inl here ↦ (let at : pid ≡ j = ground arith in rw here (items ∙ ap (λ i. contents (gs i)) at))
    | inr other ↦ rw other refl
  ],
  λ j. elim (Bool-cases (pid == j)) [
    | inl here ↦
        (let at : pid ≡ j = ground arith in
          rw here (omega (arith, used, ap (λ i. (gs i).fast.next) at)))
    | inr other ↦ rw other (omega arith)
  ],
)

push_procs-again :
    (np fuel pid : ℕ) (gs : ℕ → Rbq Ptr) (xs : List Ptr)
    → (try_pushm false false (gs pid) xs).0 ≡ false
    → push_procs (suc fuel) sure np xs pid gs
      ≡ push_procs fuel sure np xs
          (next_of np pid)
          (update gs pid (try_pushm false false (gs pid) xs).1)
unfolding push_procs next_of
push_procs-again np fuel pid gs xs full = rw full refl

-- From processor `pid` on, `d` steps before a queue `k` with room, the search ends.
push_procs-Spread :
    {e : ℕ} (np fuel d pid k : ℕ) (gs : ℕ → Rbq Ptr) (xs : List Ptr)
    → ((j : ℕ) → IsRing e (gs j))
    → ((j : ℕ) → (gs j).fast.next + length xs < 2 ^ 62)
    → length (contents (gs k)) + length xs ≤ 2 ^ e
    → pid < np
    → (pid + d) % np ≡ k
    → d < fuel
    → (gs1 : ℕ → Rbq Ptr) × (push_procs fuel sure np xs pid gs ≡ some gs1) × Spread e np gs xs gs1
unfolding push_procs next_of
push_procs-Spread np zero d pid k gs xs rings range room lt far enough = absurd (omega arith)
push_procs-Spread {e} np (suc fuel) d pid k gs xs rings range room lt far enough =
    let p = try_pushm-PushesAll false false (gs pid) xs (rings pid) (range pid) in
    let q = (try_pushm false false (gs pid) xs).1 in
    elim (Bool-cases (try_pushm false false (gs pid) xs).0) [
      | inl pushed ↦ (
        update gs pid q,
        rw pushed refl,
        pushed-Spread e np gs xs pid q rings lt p.ring (rw pushed at p.items) (rw pushed at p.used),
      )
      | inr full ↦
          let used : q.fast.next ≤ (gs pid).fast.next =
            (let u = rw full at p.used in omega (arith, u)) in
          let (rings1, same, le) = missed gs pid q rings p.ring (rw full at p.items) used in
          let (c, later) = not_here np pid d k lt far (λ here. cc (
            sym full
            ∙ p.answer refl refl
            ∙ le→leb _ _ (omega (arith, room, ap (λ j. length (contents (gs j))) here)))) in
          let (low, far1) =
            next_of-reaches np pid c k lt (ap (λ t. (pid + t) % np) (sym later) ∙ far) in
          let (gs2, done, t) =
            push_procs-Spread np fuel c (next_of np pid) k (update gs pid q) xs rings1
              (λ j. omega (arith, range j, le j)) (omega (arith, room, ap length (same k))) low far1
              (omega arith) in
          (gs2, push_procs-again np fuel pid gs xs full ∙ done, Spread-from same le t)
    ]

-- The search for a queue with room for all of `xs` ends after at most one try at each processor.
pub push_procs-finds :
    {e : ℕ} (np pid k : ℕ) (gs : ℕ → Rbq Ptr) (xs : List Ptr)
    → ((j : ℕ) → IsRing e (gs j))
    → ((j : ℕ) → (gs j).fast.next + length xs < 2 ^ 62)
    → length (contents (gs k)) + length xs ≤ 2 ^ e
    → pid < np
    → k < np
    → (gs1 : ℕ → Rbq Ptr) × (push_procs np sure np xs pid gs ≡ some gs1) × Spread e np gs xs gs1
push_procs-finds np pid k gs xs rings range room lt here = elim (Bool-cases (leb pid k)) [
  | inl ahead ↦
      let d : ℕ = k - pid in
      let le : pid ≤ k = leb→le pid k ahead in
      push_procs-Spread np np (k - pid) pid k gs xs rings range room lt
        (ap (λ t. t % np) (omega arith) ∙ mod-eq_of_lt here) (omega arith)
  | inr behind ↦
      let gt : k < pid = ground arith in
      let sum : pid + (k + np - pid) ≡ np + k = omega arith in
      push_procs-Spread np np (k + np - pid) pid k gs xs rings range room lt
        (ap (λ t. t % np) sum ∙ add-mod_left np k ∙ mod-eq_of_lt here) (omega arith)
]
