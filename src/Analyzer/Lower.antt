-- ===== src/Analyzer/Lower.antt =====
-- The inner loop of the order in get_analyzing_order of plugin/sa.hpp.
use shiyanhui_libcsp.Base.{
  ℕ, ◌+◌, ◌-◌, ◌%◌, ◌^◌, ◌<◌, ◌≡◌, refl, sym, ap, ◌∙◌, inl, inr, true, false, ◌&&◌, ◌||◌,
  Bool-cases, ◌==◌, if◌then◌else◌, List, [], ◌∷◌, ◌++◌, append-nil, append_assoc, arith, update,
  eq→==, ne→==, has, Distinct,
}
use shiyanhui_libcsp.Analyzer.{Name, lower}

-- What `lower` does to the degrees and the queue.
pub record Lowered (fs : List Name) (degrees : Name → ℕ) (queue : List Name)
    (r : (Name → ℕ) × List Name) : Type 0 where
  pub now : (f : Name) → r.0 f + (if has f fs then 1 else 0) ≡ degrees f
  pub added : List Name
  pub behind : r.1 ≡ queue ++ added
  pub exact : (f : Name) → has f added ≡ (has f fs && (degrees f == 1))
  pub once : Distinct added

Lowered-cons :
    (to : Name) (fs : List Name) (degrees : Name → ℕ) (queue : List Name) (left : ℕ)
    (r : (Name → ℕ) × List Name)
    → has to fs ≡ false
    → left + 1 ≡ degrees to
    → Lowered fs (update degrees to left) (if left == 0 then queue ++ to ∷ [] else queue) r
    → Lowered (to ∷ fs) degrees queue r
Lowered-cons to fs degrees queue left r new one_less rest =
    let now1 : (f : Name) → r.0 f + (if (to == f) || has f fs then 1 else 0) ≡ degrees f = λ f.
      elim (Bool-cases (to == f)) [
        | inl here ↦
            let same : to ≡ f = ground arith in
            let out : has f fs ≡ false = ap (λ x. has x fs) (sym same) ∙ new in
            let q = rw (here, out) at (rest.now f) in
            rw here (omega (arith, q, one_less, ap degrees same))
        | inr other ↦ rw other (rw other at (rest.now f))
      ] in
    elim (Bool-cases (left == 0)) [
      | inl last ↦
          let zero_left : left ≡ 0 = ground arith in
          record {
            now = now1;
            added = to ∷ rest.added;
            behind = (rw last at rest.behind) ∙ append_assoc queue (to ∷ []) rest.added;
            exact = λ f. elim (Bool-cases (to == f)) [
              | inl here ↦
                  let same : to ≡ f = ground arith in
                  rw here (
                    sym (eq→== (degrees f) 1 (omega (arith, one_less, zero_left, ap degrees same))))
              | inr other ↦ rw other (rw other at (rest.exact f))
            ];
            once = (rest.exact to ∙ rw new refl, rest.once);
          }
      | inr more ↦
          let some_left : 0 < left = ground arith in
          record {
            now = now1;
            added = rest.added;
            behind = rw more at rest.behind;
            exact = λ f. elim (Bool-cases (to == f)) [
              | inl here ↦
                  let same : to ≡ f = ground arith in
                  let out : has f fs ≡ false = ap (λ x. has x fs) (sym same) ∙ new in
                  rest.exact f
                  ∙ rw (out, here)
                      (sym (
                        ne→== (degrees f) 1
                          (λ t. absurd (omega (arith, one_less, some_left, t, ap degrees same)))))
              | inr other ↦ rw other (rw other at (rest.exact f))
            ];
            once = rest.once;
          }
    ]

pub lower-Lowered :
    (fs : List Name) (degrees : Name → ℕ) (queue : List Name)
    → Distinct fs
    → ((f : Name) → has f fs ≡ true → 0 < degrees f)
    → ((f : Name) → degrees f < 2 ^ 64)
    → Lowered fs degrees queue (lower fs degrees queue)
unfolding lower
lower-Lowered [] degrees queue d pos small = record {
  now = λ f. omega arith;
  added = [];
  behind = sym (append-nil queue);
  exact = λ f. refl;
  once = tt;
}
lower-Lowered (to ∷ fs) degrees queue (new, d) pos small =
    let left : ℕ = (degrees to + 2 ^ 64 - 1) % 2 ^ 64 in
    let some_left : 0 < degrees to = pos to (rw (eq→== to to refl) refl) in
    let one_less : left + 1 ≡ degrees to = omega (arith, small to) in
    let apart : (f : Name) → has f fs ≡ true → (to == f) ≡ false =
      λ f i. ne→== to f (λ t. absurd (cc (ap (λ x. has x fs) t))) in
    Lowered-cons to fs degrees queue left _ new one_less (
      lower-Lowered fs (update degrees to left) (if left == 0 then queue ++ to ∷ [] else queue) d
        (λ f i. rw (apart f i) (pos f (ground arith)))
        (λ f. elim (Bool-cases (to == f)) [
          | inl here ↦ rw here (omega (arith, small to))
          | inr other ↦ rw other (small f)
        ]))
