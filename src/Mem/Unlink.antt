-- ===== src/Mem/Unlink.antt =====
-- csp_mem_tree_node_del_span of src/mem.c for a span whose free list has others.
use shiyanhui_libcsp.Base.{
  ℕ, ◌≡◌, ◌≢◌, refl, List, [], ◌∷◌, ◌++◌, arith, true, false, Bool-cases, inl, inr, has, Distinct,
  head_or, last_of, last_of-has, has-append, ◌==◌, ap, ◌∙◌, ◌&&◌,
}
use shiyanhui_libcsp.Mem.{SpanPtr, null, span_by_index, index_zero}
use shiyanhui_libcsp.Mem.Spans.{set_fp_next, set_fp_pre, del_links}
use shiyanhui_libcsp.Mem.Lists.{Spans, Known, Chain, Chain-frame, span_by_index-zero}

-- What the links of spans are once `x` between `pre` and `next` is taken out.
pub record Unlinked (s g : Spans) (x pre next : SpanPtr) : Type 0 where
  pub index : (a : SpanPtr) → (g a).index ≡ (s a).index
  nexts : (a : SpanPtr) → a ≢ x → a ≢ pre → (g a).fp_next ≡ (s a).fp_next
  pres : (a : SpanPtr) → a ≢ x → a ≢ next → (g a).fp_pre ≡ (s a).fp_pre
  at_pre : pre ≢ null → span_by_index (g pre).fp_next ≡ next
  at_next : next ≢ null → span_by_index (g next).fp_pre ≡ pre
  others : (a : SpanPtr) → a ≢ x → a ≢ pre → a ≢ next → g a ≡ s a

-- The neighbours of a span in a chain.
pub Chain-at :
    (s : Spans) (pre p x : SpanPtr) (fs bs : List SpanPtr)
    → Chain s pre p (fs ++ x ∷ bs)
    → Known s x
      × (span_by_index (s x).fp_pre ≡ last_of pre fs)
      × Chain s x (span_by_index (s x).fp_next) bs
Chain-at s pre p x [] bs (e, k, b, c) = (k, b, c)
Chain-at s pre p x (f ∷ fs) bs (e, k, b, c) = Chain-at s f (span_by_index (s f).fp_next) x fs bs c

pub Chain-head :
    (s : Spans) (pre p : SpanPtr) (xs : List SpanPtr) → Chain s pre p xs → p ≡ head_or null xs
Chain-head s pre p [] c = c
Chain-head s pre p (x ∷ xs) c = c.0

apart_of :
    (a x : ℕ) (fs bs : List ℕ)
    → has a (fs ++ x ∷ bs) ≡ false
    → (has a fs ≡ false) × (a ≢ x) × (has a bs ≡ false)
apart_of a x fs bs h =
    let both = has-append a fs (x ∷ bs) in (ground arith, ground arith, ground arith)

ne_head : (a : ℕ) (bs : List ℕ) → a ≢ null → has a bs ≡ false → a ≢ head_or null bs
ne_head a [] n h = n
ne_head a (b ∷ bs) n h = ground arith

ne_last : (a b : ℕ) (fs : List ℕ) → has a (b ∷ fs) ≡ false → a ≢ last_of b fs
ne_last a b fs h = λ e. let inside = last_of-has b b fs in ground arith

-- Without `x` the rest of the chain hangs together.
pub Chain-cut :
    (s g : Spans) (pre p x : SpanPtr) (fs bs : List SpanPtr)
    → Unlinked s g x (last_of pre fs) (head_or null bs)
    → has pre (fs ++ x ∷ bs) ≡ false
    → Distinct (fs ++ x ∷ bs)
    → Chain s pre p (fs ++ x ∷ bs)
    → Chain g pre (head_or null (fs ++ bs)) (fs ++ bs)
Chain-cut s g pre p x [] [] u apart d c = refl
Chain-cut s g pre p x [] (b ∷ bs) u apart d (e, k, back, (e', k', back', c)) =
    let next : (g b).fp_next ≡ (s b).fp_next = u.nexts b (ground arith) (ground arith) in
    (
      refl,
      (k'.0, rw (u.index b) k'.1),
      u.at_next k'.0,
      rw next (
          Chain-frame s g b (span_by_index (s b).fp_next) bs
            (λ a i. u.others a (ground arith) (ground arith) (ground arith)) c),
    )
Chain-cut s g pre p x (f ∷ []) bs u apart d (e, k, back, c) =
    let rest = Chain-cut s g f (span_by_index (s f).fp_next) x [] bs u d.0 d.1 c in
    let (m, ne_x, nb) = apart_of f x [] bs d.0 in
    let here : (g f).fp_pre ≡ (s f).fp_pre = u.pres f ne_x (ne_head f bs k.0 nb) in
    (refl, (k.0, rw (u.index f) k.1), rw here back, rw (u.at_pre k.0) rest)
Chain-cut s g pre p x (f ∷ f' ∷ fs) bs u apart d (e, k, back, c) =
    let rest = Chain-cut s g f (span_by_index (s f).fp_next) x (f' ∷ fs) bs u d.0 d.1 c in
    let (m, ne_x, nb) = apart_of f x (f' ∷ fs) bs d.0 in
    let here : (g f).fp_pre ≡ (s f).fp_pre = u.pres f ne_x (ne_head f bs k.0 nb) in
    let next : (g f).fp_next ≡ (s f).fp_next = u.nexts f ne_x (ne_last f f' fs m) in
    (refl, (k.0, rw (u.index f) k.1), rw here back, rw (next, c.0) rest)

-- The three ways to take a span out of its links.
pub del_links-Unlinked :
    (s : Spans) (x pre next : SpanPtr)
    → (pre ≢ null → Known s pre)
    → (next ≢ null → Known s next)
    → x ≢ pre
    → x ≢ next
    → (pre ≢ null → pre ≢ next)
    → (pre == null && next == null) ≡ false
    → Unlinked s (del_links x pre next s) x pre next
unfolding del_links set_fp_next set_fp_pre
del_links-Unlinked s x pre next kp kn xp xn pn nz = record {
  index = λ a. ground arith;
  nexts = λ a m n. ground arith;
  pres = λ a m n. ground arith;
  at_pre = λ n. elim (Bool-cases (next == null)) [
    | inl no_next ↦
        let last : (del_links x pre next s pre).fp_next ≡ index_zero = ground arith in
        ap span_by_index last ∙ span_by_index-zero ∙ ground arith
    | inr some_next ↦
        let link : (del_links x pre next s pre).fp_next ≡ (s next).index = ground arith in
        ap span_by_index link ∙ (kn (ground arith)).1
  ];
  at_next = λ n. elim (Bool-cases (pre == null)) [
    | inl no_pre ↦
        let first : (del_links x pre next s next).fp_pre ≡ index_zero = ground arith in
        ap span_by_index first ∙ span_by_index-zero ∙ ground arith
    | inr some_pre ↦
        let link : (del_links x pre next s next).fp_pre ≡ (s pre).index = ground arith in
        ap span_by_index link ∙ (kp (ground arith)).1
  ];
  others = λ a l m n. ground arith;
}

-- The span taken out knows no predecessor.
pub del_links-first :
    (s : Spans) (x pre next : SpanPtr)
    → span_by_index (s x).fp_pre ≡ pre
    → x ≢ pre
    → x ≢ next
    → (pre == null && next == null) ≡ false
    → span_by_index (del_links x pre next s x).fp_pre ≡ null
unfolding del_links set_fp_next set_fp_pre
del_links-first s x pre next back xp xn nz = elim (Bool-cases (pre == null)) [
  | inl no_pre ↦
      let same : (del_links x pre next s x).fp_pre ≡ (s x).fp_pre = ground arith in
      ap span_by_index same ∙ back ∙ ground arith
  | inr some_pre ↦
      let zero : (del_links x pre next s x).fp_pre ≡ index_zero = ground arith in
      ap span_by_index zero ∙ span_by_index-zero
]

pub last-Known :
    (s : Spans) (pre p x : SpanPtr) (fs bs : List SpanPtr)
    → Chain s pre p (fs ++ x ∷ bs)
    → (pre ≢ null → Known s pre)
    → last_of pre fs ≢ null
    → Known s (last_of pre fs)
last-Known s pre p x [] bs c k n = k n
last-Known s pre p x (f ∷ fs) bs c k n =
    last-Known s f (span_by_index (s f).fp_next) x fs bs c.3 (λ m. c.1) n

pub head-Known :
    (s : Spans) (pre p : SpanPtr) (xs : List SpanPtr)
    → Chain s pre p xs
    → head_or null xs ≢ null
    → Known s (head_or null xs)
head-Known s pre p [] c n = absurd (n refl)
head-Known s pre p (x ∷ xs) c n = c.1

pub Distinct-drop :
    (x : ℕ) (fs bs : List ℕ)
    → Distinct (fs ++ x ∷ bs)
    → Distinct (fs ++ bs) × (has x (fs ++ bs) ≡ false)
Distinct-drop x [] bs d = (d.1, d.0)
Distinct-drop x (f ∷ fs) bs d =
    let (rest, out) = Distinct-drop x fs bs d.1 in
    let (m, ne_x, nb) = apart_of f x fs bs d.0 in
    ((let both = has-append f fs bs in ground arith, rest), ground arith)

-- The neighbours of a span in a list with no element twice.
pub last-ne : (x a : ℕ) (fs bs : List ℕ) → x ≢ a → Distinct (fs ++ x ∷ bs) → x ≢ last_of a fs
last-ne x a [] bs n d = n
last-ne x a (f ∷ fs) bs n d =
    let (m, ne_x, nb) = apart_of f x fs bs d.0 in last-ne x f fs bs (ground arith) d.1

pub head-ne : (x : ℕ) (fs bs : List ℕ) → x ≢ null → Distinct (fs ++ x ∷ bs) → x ≢ head_or null bs
head-ne x [] bs n d = ne_head x bs n d.0
head-ne x (f ∷ fs) bs n d = head-ne x fs bs n d.1

pub last-ne-head :
    (x a : ℕ) (fs bs : List ℕ)
    → (a ≢ null → a ≢ head_or null bs)
    → ((b : ℕ) → has b fs ≡ true → b ≢ null)
    → Distinct (fs ++ x ∷ bs)
    → last_of a fs ≢ null
    → last_of a fs ≢ head_or null bs
last-ne-head x a [] bs n r d z = n z
last-ne-head x a (f ∷ fs) bs n r d z =
    let (m, ne_x, nb) = apart_of f x fs bs d.0 in
    last-ne-head x f fs bs (λ k. ne_head f bs k nb) (λ b i. r b (ground arith)) d.1 z

pub Chain-real :
    (s : Spans) (pre p x : SpanPtr) (fs bs : List SpanPtr)
    → Chain s pre p (fs ++ x ∷ bs)
    → (b : SpanPtr) → has b fs ≡ true
    → b ≢ null
Chain-real s pre p x [] bs c b i = cc
Chain-real s pre p x (f ∷ fs) bs c b i = elim (Bool-cases (f == b)) [
  | inl same ↦ let real = c.1.0 in ground arith
  | inr other ↦ Chain-real s f (span_by_index (s f).fp_next) x fs bs c.3 b (ground arith)
]
