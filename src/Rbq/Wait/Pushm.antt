-- ===== src/Rbq/Wait/Pushm.antt =====
-- pushm of src/rbq.h: what a round does to the queue and to the items that are left.
use native.Mathlib.Nat.{mul_assoc, zero-mul, suc-mul}
use shiyanhui_libcsp.Base.{
  ℕ, zero, suc, ◌+◌, ◌-◌, ◌*◌, ◌/◌, ◌%◌, ◌^◌, ◌≤◌, ◌<◌, ◌≡◌, ◌≢◌, refl, sym, ap, ap₂, ◌∙◌, inl, inr,
  Bool, false, [], ◌++◌, arith, ltb-false, length, append-nil, pow-suc, pow_pos,
}
use shiyanhui_libcsp.Rbq.{Rbq}
use shiyanhui_libcsp.Rbq.Ring.{IsRing, contents}
use shiyanhui_libcsp.Rbq.Wait.{Pushing, read, pushm_round, pushm_start}
use shiyanhui_libcsp.Rbq.Wait.Round.{Waited, Sent, pushm_round-PushesPart}

half_power : (a : ℕ) → 2 ^ a ≢ 1 → (b : ℕ) × (a ≡ b + 1) × (2 ^ a / 2 ≡ 2 ^ b)
half_power zero odd = absurd (odd refl)
half_power (suc b) odd = (b, omega arith, omega (arith, pow-suc 2 b))

twice_half : (k b : ℕ) → k * 2 ^ (b + 1) ≡ k * 2 * 2 ^ b
twice_half k b =
    let half : 2 ^ (b + 1) ≡ 2 * 2 ^ b =
      (let one : b + 1 ≡ suc b = omega arith in ap (λ x. 2 ^ x) one ∙ omega (arith, pow-suc 2 b)) in
    ap (λ x. k * x) half ∙ sym (mul_assoc k 2 (2 ^ b))

positive : (k p : ℕ) → 0 < k * p → (j : ℕ) × (k ≡ suc j)
positive zero p h = absurd (omega (arith, zero-mul p))
positive (suc j) p h = (j, refl)

module _ {ℓ} {A : Type ℓ} where
  -- The chunk is a power of two that divides what is left, and nothing of the `n` items is lost.
  pub record Whole (n : ℕ) (s : Pushing A) : Type 0 where
    pub exp : ℕ
    pub count : ℕ
    pub chunk : s.chunk ≡ 2 ^ exp
    pub left : s.left ≡ count * 2 ^ exp
    pub total : s.at + s.left ≡ n

  -- What a round must do: it keeps the ring and the division into chunks, and appends exactly the
  -- items that the pointer passes.
  pub record KeepsWhole (e n : ℕ) (mem : ℕ → A) (s t : Pushing A) : Type ℓ where
    pub ring : IsRing e t.ring
    pub whole : Whole n t
    pub forward : s.at ≤ t.at
    pub items : contents t.ring ≡ contents s.ring ++ read mem s.at (t.at - s.at)

  Waited-Whole : {n : ℕ} {s t : Pushing A} → Waited s t → Whole n s → Whole n t
  Waited-Whole {s = s} {t = t} w v = elim w.chunk [
    | inl same ↦ record {
      exp = v.exp;
      count = v.count;
      chunk = same ∙ v.chunk;
      left = w.left ∙ v.left;
      total = omega (arith, w.at, w.left, v.total);
    }
    | inr half ↦
        let (b, below, halves) = half_power v.exp (λ t. half.0 (v.chunk ∙ t)) in
        record {
          exp = b;
          count = v.count * 2;
          chunk = half.1 ∙ ap (λ c. c / 2) v.chunk ∙ halves;
          left = w.left ∙ v.left ∙ ap (λ x. v.count * 2 ^ x) below ∙ twice_half v.count b;
          total = omega (arith, w.at, w.left, v.total);
        }
  ]

  Sent-Whole :
      {n : ℕ} {mem : ℕ → A} {s t : Pushing A}
      → Sent mem s t
      → Whole n s
      → 0 < s.left
      → n < 2 ^ 64
      → Whole n t
  Sent-Whole {s = s} {t = t} w v some_left small =
      let (k, one_more) = positive v.count (2 ^ v.exp) (omega (arith, v.left)) in
      let before : s.left ≡ k * 2 ^ v.exp + 2 ^ v.exp =
        v.left ∙ ap (λ c. c * 2 ^ v.exp) one_more ∙ suc-mul k (2 ^ v.exp) in
      let rest : (s.left + 2 ^ 64 - s.chunk) % 2 ^ 64 ≡ k * 2 ^ v.exp =
        omega (arith, before, v.chunk, v.total) in
      record {
        exp = v.exp;
        count = k;
        chunk = w.chunk ∙ v.chunk;
        left = w.left ∙ rest;
        total = omega (arith, w.at, w.left, rest, before, v.chunk, v.total);
      }

  -- Where the chunk of `pushm` is a power of two that divides the number of items that are left, one
  -- round keeps that, keeps the ring well-formed, and appends exactly the items that the pointer has
  -- passed, whichever compare-exchanges fail; pointer and number of items left always make up `n`.
  pub pushm_round-KeepsWhole :
      {e n : ℕ} (weak : Bool × Bool) (mem : ℕ → A) (s : Pushing A)
      → IsRing e s.ring
      → Whole n s
      → 0 < s.left
      → n < 2 ^ 64
      → s.ring.fast.next + s.chunk < 2 ^ 62
      → KeepsWhole e n mem s (pushm_round weak mem s)
  unfolding read
  pushm_round-KeepsWhole {e} {n} weak mem s v w some_left small r =
      let p = pushm_round-PushesPart weak mem s v (omega (arith, w.chunk, pow_pos w.exp)) r in
      elim p.step [
        | inl waits ↦
            let none_past : (pushm_round weak mem s).at - s.at ≡ 0 = omega (arith, waits.at) in
            record {
              ring = p.ring;
              whole = Waited-Whole waits w;
              forward = omega (arith, waits.at);
              items =
                  waits.items
                  ∙ sym (append-nil (contents s.ring))
                  ∙ ap (λ k. contents s.ring ++ read mem s.at k) (sym none_past);
            }
        | inr sends ↦
            let past : (pushm_round weak mem s).at - s.at ≡ s.chunk = omega (arith, sends.at) in
            record {
              ring = p.ring;
              whole = Sent-Whole sends w some_left small;
              forward = omega (arith, sends.at);
              items = sends.items ∙ ap (λ k. contents s.ring ++ read mem s.at k) (sym past);
            }
      ]

  -- `pushm` of more items than an empty queue has slots, but of fewer than twice as many, where no
  -- compare-exchange fails and other threads have emptied the queue before the second round: it
  -- appends a whole chunk there from behind the end of the items, and the number of the items that
  -- are left wraps around below 0.
  pub pushm_round-overrun :
      {e : ℕ} (mem : ℕ → A) (q q' : Rbq A) (n : ℕ)
      → IsRing e q
      → contents q ≡ []
      → 2 ^ e < n
      → n < 2 * 2 ^ e
      → q.fast.next + n < 2 ^ 61
      → IsRing e q'
      → contents q' ≡ []
      → q'.fast.next + n < 2 ^ 61
      → let s1 = pushm_round (false, false) mem (pushm_start q n) in
        let s2 = pushm_round (false, false) mem (record s1 { ring = q' }) in
        (contents s1.ring ≡ read mem 0 (2 ^ e))
        × (contents s2.ring ≡ read mem (2 ^ e) (2 ^ e))
        × (s2.left ≡ 2 ^ 64 + n - 2 * 2 ^ e)
  unfolding pushm_start
  pushm_round-overrun {e} mem q q' n v none_in more less r v' none_in' r' =
      let s = pushm_start q n in
      let chunk : s.chunk ≡ 2 ^ e = rw (v.cap, ltb-false n (2 ^ e) (omega arith)) refl in
      let p =
        pushm_round-PushesPart (false, false) mem s v (omega (arith, chunk, pow_pos e))
          (omega (arith, chunk)) in
      let one = p.sent refl (omega (arith, chunk, ap length none_in)) in
      let s1 = pushm_round (false, false) mem s in
      let chunk1 : s1.chunk ≡ 2 ^ e = one.chunk ∙ chunk in
      let at1 : s1.at ≡ 2 ^ e = omega (arith, one.at, chunk) in
      let left1 : s1.left ≡ n - 2 ^ e = omega (arith, one.left, chunk, v.size) in
      let p' =
        pushm_round-PushesPart (false, false) mem (record s1 { ring = q' }) v'
          (omega (arith, chunk1, pow_pos e)) (omega (arith, chunk1)) in
      let two = p'.sent refl (omega (arith, chunk1, ap length none_in')) in
      (
        one.items ∙ ap (λ l. l ++ read mem 0 s.chunk) none_in ∙ ap (read mem 0) chunk,
        two.items ∙ ap (λ l. l ++ read mem s1.at s1.chunk) none_in' ∙ ap₂ (read mem) at1 chunk1,
        omega (arith, two.left, left1, chunk1, v.size),
      )
