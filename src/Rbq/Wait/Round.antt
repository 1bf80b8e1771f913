-- ===== src/Rbq/Wait/Round.antt =====
-- One round of pushm of src/rbq.h: it waits, or appends a chunk of the items.
use shiyanhui_libcsp.Base.{
  ℕ, zero, suc, ◌+◌, ◌-◌, ◌/◌, ◌%◌, ◌^◌, ◌≤◌, ◌<◌, ◌≡◌, ◌≢◌, refl, sym, ap, ◌∙◌, ◌⊎◌, inl, inr,
  Bool, true, false, List, ◌∷◌, ◌++◌, arith, ◌==◌, eq→==, ltb, ltb→lt, lt→ltb, Bool-cases,
  if◌then◌else◌, length,
}
use shiyanhui_libcsp.Rbq.Ptr.{Pointer, add64}
use shiyanhui_libcsp.Rbq.{Rbq, readers_barr, push_at, pushm_at}
use shiyanhui_libcsp.Rbq.Ring.{IsRing, contents, length-contents}
use shiyanhui_libcsp.Rbq.Push.{
  Refreshed, readers_barr-Refreshed, whole_view, contents-Refreshed, push_at-put, put-Pushes,
}
use shiyanhui_libcsp.Rbq.Pushm.{pushm_at-batch, batch-Puts}
use shiyanhui_libcsp.Rbq.Wait.{Pushing, read, push_items, pushm_round}

halved :
    (c : ℕ)
    → ((if c == 1 then c else c / 2) ≡ c) ⊎ ((c ≢ 1) × ((if c == 1 then c else c / 2) ≡ c / 2))
halved c = elim (Bool-cases (c == 1)) [
  | inl one ↦ inl (rw one refl)
  | inr more ↦ inr ((λ t. cc (eq→== c 1 t)), rw more refl)
]

module _ {ℓ} {A : Type ℓ} where
  length-read : (mem : ℕ → A) (at n : ℕ) → length (read mem at n) ≡ n
  unfolding read
  length-read mem at zero = refl
  length-read mem at (suc n) = ap suc (length-read mem (at + 1) n)

  -- Both ways to store a chunk.
  abbrev store : Bool → Rbq A → (fnext : ℕ) → (mem : ℕ → A) → (at chunk : ℕ) → Bool × Rbq A
  store weak q fnext mem at chunk =
      if ltb 1 chunk
      then pushm_at weak q fnext (read mem at chunk)
      else push_at weak q fnext (mem at)

  record Stored (e : ℕ) (weak : Bool) (q : Rbq A) (xs : List A) (r : Bool × Rbq A) : Type ℓ where
    ring : IsRing e r.1
    items : contents r.1 ≡ (if r.0 then contents q ++ xs else contents q)
    answer : weak ≡ false → r.0 ≡ true

  store-Stored :
      {e : ℕ} (weak : Bool) (q : Rbq A) (fnext : ℕ) (mem : ℕ → A) (at chunk : ℕ)
      → IsRing e q
      → fnext ≡ q.fast.next
      → 0 < chunk
      → q.fast.next + chunk ≤ q.slow.barr + 2 ^ e
      → q.fast.next + chunk < 2 ^ 62
      → Stored e weak q (read mem at chunk) (store weak q fnext mem at chunk)
  unfolding read
  store-Stored weak q fnext mem at zero v same pos room r = absurd (omega arith)
  store-Stored weak q fnext mem at (suc zero) v same pos room r =
      let (b, done, sure) = push_at-put weak q fnext (mem at) same in
      let (ring, items, used) = put-Pushes b q (mem at) v (omega arith) r in
      rw done (record { ring = ring; items = items; answer = sure })
  store-Stored weak q fnext mem at (suc (suc n)) v same pos room r =
      let xs = read mem (at + 1) (suc n) in
      let count : length xs ≡ suc n = length-read mem (at + 1) (suc n) in
      let (b, done, sure) = pushm_at-batch weak q fnext (mem at ∷ xs) same in
      let (ring, items, used) =
        batch-Puts b q (mem at) xs v (omega (arith, count)) (omega (arith, count)) in
      rw (lt→ltb 1 (suc (suc n)) (omega arith), done)
        (record { ring = ring; items = items; answer = sure })

  -- A round that finds no room, or whose compare-exchange fails.
  pub record Waited (s t : Pushing A) : Type ℓ where
    pub items : contents t.ring ≡ contents s.ring
    pub at : t.at ≡ s.at
    pub left : t.left ≡ s.left
    pub chunk : (t.chunk ≡ s.chunk) ⊎ ((s.chunk ≢ 1) × (t.chunk ≡ s.chunk / 2))

  -- A round that stores a chunk.
  pub record Sent (mem : ℕ → A) (s t : Pushing A) : Type ℓ where
    pub items : contents t.ring ≡ contents s.ring ++ read mem s.at s.chunk
    pub at : t.at ≡ s.at + s.chunk
    pub left : t.left ≡ (s.left + 2 ^ 64 - s.chunk) % 2 ^ 64
    pub chunk : t.chunk ≡ s.chunk

  pub record PushesPart (e : ℕ) (weak : Bool × Bool) (mem : ℕ → A) (s t : Pushing A) : Type ℓ where
    pub ring : IsRing e t.ring
    pub step : Waited s t ⊎ Sent mem s t
    pub sent : weak ≡ (false, false) → length (contents s.ring) + s.chunk ≤ 2 ^ e → Sent mem s t

  -- One round on a well-formed ring keeps it well-formed and either waits, perhaps with half of the
  -- chunk, or appends the next chunk of the memory.
  pub pushm_round-PushesPart :
      {e : ℕ} (weak : Bool × Bool) (mem : ℕ → A) (s : Pushing A)
      → IsRing e s.ring
      → 0 < s.chunk
      → s.ring.fast.next + s.chunk < 2 ^ 62
      → PushesPart e weak mem s (pushm_round weak mem s)
  unfolding pushm_round push_items
  pushm_round-PushesPart {e} weak mem s v pos r =
      let full = λ (sbarr : ℕ). ltb (add64 sbarr s.ring.cap) (add64 s.ring.fast.next s.chunk) in
      let got = readers_barr-Refreshed weak.0 s.ring full v in
      let (sbarr, q1) = readers_barr weak.0 s.ring full in
      elim (Bool-cases (full sbarr)) [
        | inl no_room ↦ rw no_room (record {
          ring = got.ring;
          step = inl (record {
            items = contents-Refreshed got;
            at = refl;
            left = refl;
            chunk = halved s.chunk;
          });
          sent = λ w fits.
              let view = whole_view got no_room (ap (λ t. t.0) w) in
              let low = ltb→lt (add64 sbarr s.ring.cap) (add64 s.ring.fast.next s.chunk) no_room in
              absurd (omega (arith, length-contents s.ring));
        })
        | inr some_room ↦
            let same : q1.fast.next ≡ s.ring.fast.next = ap (λ (p : Pointer). p.next) got.fast in
            let high : add64 s.ring.fast.next s.chunk ≤ add64 sbarr s.ring.cap = ground arith in
            let room : q1.fast.next + s.chunk ≤ q1.slow.barr + 2 ^ e =
              omega (arith, got.fresh, got.ring.slow.barr_le, got.next, got.ring.order) in
            let d =
              store-Stored weak.1 q1 s.ring.fast.next mem s.at s.chunk got.ring (sym same) pos room
                (omega arith) in
            rw some_room (stored got d)
      ]
    where
      stored :
          {r : ℕ × Rbq A} {full : ℕ → Bool} {o : Bool × Rbq A}
          → Refreshed e weak.0 s.ring full r
          → Stored e weak.1 r.1 (read mem s.at s.chunk) o
          → PushesPart e weak mem s (
              if o.0
              then record s {
                ring = o.1;
                at = s.at + s.chunk;
                left = (s.left + 2 ^ 64 - s.chunk) % 2 ^ 64;
              }
              else record s { ring = o.1 })
      stored {o = (true, q2)} got d =
          let t : Sent mem s (record s {
            ring = q2;
            at = s.at + s.chunk;
            left = (s.left + 2 ^ 64 - s.chunk) % 2 ^ 64;
          }) =
            record {
              items = d.items ∙ ap (λ l. l ++ read mem s.at s.chunk) (contents-Refreshed got);
              at = refl;
              left = refl;
              chunk = refl;
            } in
          record { ring = d.ring; step = inr t; sent = λ w fits. t }
      stored {o = (false, q2)} got d = record {
        ring = d.ring;
        step = inl (record {
          items = d.items ∙ contents-Refreshed got;
          at = refl;
          left = refl;
          chunk = inl refl;
        });
        sent = λ w fits. absurd (cc (d.answer (ap (λ t. t.1) w)));
      }
