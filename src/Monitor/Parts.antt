-- ===== src/Monitor/Parts.antt =====
-- csp_monitor_procs_put_list of src/monitor.c on a run queue.
use shiyanhui_libcsp.Base.{
  ℕ, zero, suc, ◌≡◌, refl, sym, ap, ◌∙◌, inl, inr, true, false, Bool-cases, ◌==◌, List, [], ◌∷◌,
  arith, update, eq→==, ne→==, has, Distinct, take, drop,
}
use shiyanhui_libcsp.Runq.{Ptr, null, Link, Links}
use shiyanhui_libcsp.Runq.Chain.{Chain, Chain-frame}
use shiyanhui_libcsp.Monitor.{procs_put_list}

-- What the macro makes of a chain `xs`: the first processes are in the array and out of the list, the
-- others are the rest of the list.
pub record Parted (n : ℕ) (h : Links) (xs : List Ptr) (r : List Ptr × Ptr × Links) : Type 0 where
  pub procs : r.0 ≡ take n xs
  pub pre : Ptr
  pub rest : Chain r.2 pre r.1 (drop n xs)
  pub cleared : (p : Ptr) → has p (take n xs) ≡ true → ((r.2 p).pre ≡ null) × ((r.2 p).next ≡ null)
  pub same : (p : Ptr) → has p (take n xs) ≡ false → r.2 p ≡ h p

has-take : (n : ℕ) (p : Ptr) (xs : List Ptr) → has p xs ≡ false → has p (take n xs) ≡ false
has-take zero p xs h = refl
has-take (suc n) p [] h = h
has-take (suc n) p (x ∷ xs) h = elim (Bool-cases (x == p)) [
  | inl here ↦ absurd (let t = rw here at h in cc t)
  | inr later ↦ rw later (has-take n p xs (rw later at h))
]

pub procs_put_list-Parted :
    (n : ℕ) (pre start : Ptr) (h : Links) (xs : List Ptr)
    → Chain h pre start xs
    → Distinct xs
    → Parted n h xs (procs_put_list n start h)
unfolding procs_put_list
procs_put_list-Parted zero pre start h xs c d = record {
  procs = refl;
  pre = pre;
  rest = c;
  cleared = λ p i. absurd (cc i);
  same = λ p i. refl;
}
procs_put_list-Parted (suc n) pre start h [] c d = rw (eq→== start null c) (record {
  procs = refl;
  pre = pre;
  rest = c;
  cleared = λ p i. absurd (cc i);
  same = λ p i. refl;
})
procs_put_list-Parted (suc n) pre start h (x ∷ xs) (e, ne, b, c) (new, d) =
    let h1 : Links = update h x (record { pre = null; next = null }) in
    let others : (a : Ptr) → has a xs ≡ true → h1 a ≡ h a =
      λ a i. rw (ne→== x a (λ t. cc (ap (λ z. has z xs) t))) refl in
    let chain : Chain h1 x (h x).next xs = Chain-frame h h1 x (h x).next xs others c in
    let r = procs_put_list-Parted n x (h x).next h1 xs chain d in
    let some_left : (start == null) ≡ false = ne→== start null (λ t. ne (sym e ∙ t)) in
    rw (some_left, e)
      (record {
        procs = ap (λ l. x ∷ l) r.procs;
        pre = r.pre;
        rest = r.rest;
        cleared = λ p i. elim (Bool-cases (x == p)) [
          | inl here ↦
              let at : x ≡ p = ground arith in
              let out : has p (take n xs) ≡ false =
                has-take n p xs (ap (λ z. has z xs) (sym at) ∙ new) in
              let kept = r.same p out in
              (
                ap (λ (l : Link). l.pre) kept ∙ rw here refl,
                ap (λ (l : Link). l.next) kept ∙ rw here refl,
              )
          | inr later ↦ r.cleared p (rw later at i)
        ];
        same = λ p i. elim (Bool-cases (x == p)) [
          | inl here ↦ absurd (let t = rw here at i in cc t)
          | inr later ↦ r.same p (rw later at i) ∙ rw later refl
        ];
      })
