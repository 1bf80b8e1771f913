-- ===== src/Timer/Batches.antt =====
-- The lists of processes that csp_timer_heap_get and csp_timer_poll of src/timer.c link.
use shiyanhui_libcsp.Base.{
  ◌+◌, ◌≡◌, refl, sym, ap, ap₂, subst, ◌∙◌, List, [], ◌∷◌, ◌++◌, append-nil, append_assoc, true,
  false, arith, ◌==◌, ltb, eq→==, ne→==, has, has-append, Distinct, last_of, last_of-has, length,
  length-append, inl, inr, Bool-cases,
}
use shiyanhui_libcsp.Runq.{Ptr, null, Link, Links}
use shiyanhui_libcsp.Runq.Chain.{Chain, Chain-frame, Detached, last-ne_null}
use shiyanhui_libcsp.Runq.Join.{hook, hook-other, Chain-hook}
use shiyanhui_libcsp.Timer.Heaps.{Batch, link_next, link_list, join_batch}

-- The list under construction is the list of the processes `xs`.
pub record IsBatch (b : Batch) (xs : List Ptr) : Type 0 where
  pub chain : Chain b.links null b.start xs
  pub last : b.end ≡ last_of null xs
  pub counted : b.total ≡ length xs
  pub distinct : Distinct xs

abbrev pub Apart : List Ptr → List Ptr → Type 0
Apart xs ys = (a : Ptr) → has a xs ≡ true → has a ys ≡ false

abbrev pub with_links : Links → Batch → Batch
with_links h b = record b { links = h }

pub IsBatch-frame :
    (b : Batch) (h : Links) (xs : List Ptr)
    → ((a : Ptr) → has a xs ≡ true → h a ≡ b.links a)
    → IsBatch b xs
    → IsBatch (with_links h b) xs
IsBatch-frame b h xs same v = record {
  chain = Chain-frame b.links h null b.start xs same v.chain;
  last = v.last;
  counted = v.counted;
  distinct = v.distinct;
}

last_of-append : (d y : Ptr) (xs ys : List Ptr) → last_of d (xs ++ y ∷ ys) ≡ last_of y ys
last_of-append d y [] ys = refl
last_of-append d y (x ∷ xs) ys = last_of-append x y xs ys

Distinct-append : (xs ys : List Ptr) → Distinct xs → Distinct ys → Apart xs ys → Distinct (xs ++ ys)
Distinct-append [] ys dx dy apart = dy
Distinct-append (x ∷ xs) ys (new, dx) dy apart = (
  has-append x xs ys ∙ rw (new, apart x (rw (eq→== x x refl) refl)) refl,
  Distinct-append xs ys dx dy (λ a i. apart a (ground arith)),
)

join_batch-some :
    (b part : Batch)
    → ltb 0 part.total ≡ true
    → (b.total == 0) ≡ false
    → join_batch b part ≡ record {
      total = b.total + part.total;
      start = b.start;
      end = part.end;
      links = hook b.end part.start part.links;
    }
unfolding join_batch
join_batch-some b part more some_before = rw (join_batch, more, some_before) refl

-- Both lists are in the same links.
pub join_batch-IsBatch :
    (b part : Batch) (xs ys : List Ptr)
    → IsBatch (with_links part.links b) xs
    → IsBatch part ys
    → Apart xs ys
    → IsBatch (join_batch b part) (xs ++ ys)
unfolding join_batch
join_batch-IsBatch b part xs [] v w apart = rw (w.counted, append-nil xs) (v)
join_batch-IsBatch b part [] (y ∷ ys) v w apart =
    let more : ltb 0 part.total ≡ true = ground (arith, w.counted) in rw (more, v.counted) w
join_batch-IsBatch b part (x ∷ xs) (y ∷ ys) v w apart =
    let more : ltb 0 part.total ≡ true = ground (arith, w.counted) in
    let some_before : (b.total == 0) ≡ false =
      ne→== b.total 0 (λ t. absurd (omega (arith, t, v.counted))) in
    let hooked : Ptr → Ptr → Batch = λ t q. record {
      total = b.total + part.total;
      start = b.start;
      end = part.end;
      links = hook t q part.links;
    } in
    let joined : join_batch b part ≡ hooked (last_of x xs) y =
      join_batch-some b part more some_before ∙ ap₂ hooked v.last w.chain.0 in
    let chained : IsBatch (hooked (last_of x xs) y) (x ∷ (xs ++ y ∷ ys)) = record {
      chain =
          Chain-hook part.links null b.start x xs y ys v.chain
            (subst (λ p. Chain part.links null p (y ∷ ys)) w.chain.0 w.chain) apart v.distinct
            w.distinct;
      last = w.last ∙ sym (last_of-append x y xs ys);
      counted = omega (arith, v.counted, w.counted, length-append (x ∷ xs) (y ∷ ys));
      distinct = Distinct-append (x ∷ xs) (y ∷ ys) v.distinct w.distinct apart;
    } in
    subst (λ r. IsBatch r (x ∷ (xs ++ y ∷ ys))) (sym joined) chained

-- What joining leaves alone.
pub join_batch-other :
    (b part : Batch) (xs ys : List Ptr) (a : Ptr)
    → IsBatch (with_links part.links b) xs
    → IsBatch part ys
    → has a xs ≡ false
    → has a ys ≡ false
    → (join_batch b part).links a ≡ part.links a
unfolding join_batch
join_batch-other b part xs [] a v w out_x out_y = rw w.counted refl
join_batch-other b part [] (y ∷ ys) a v w out_x out_y =
    let more : ltb 0 part.total ≡ true = ground (arith, w.counted) in rw (more, v.counted) refl
join_batch-other b part (x ∷ xs) (y ∷ ys) a v w out_x out_y =
    let more : ltb 0 part.total ≡ true = ground (arith, w.counted) in
    let some_before : (b.total == 0) ≡ false =
      ne→== b.total 0 (λ t. absurd (omega (arith, t, v.counted))) in
    ap (λ (r : Batch). r.links a) (join_batch-some b part more some_before)
    ∙ hook-other b.end part.start part.links a
        (λ t. absurd (
          let in_list = ap (λ p. has p (x ∷ xs)) (t ∙ v.last) ∙ last_of-has null x xs in
          cc (in_list, out_x)))
        (λ t. absurd (let here = eq→== y a (sym (t ∙ w.chain.0)) in ground (arith, here)))

-- One more process joins as a list of one.
link_next-join_batch :
    (b : Batch) (xs : List Ptr) (p : Ptr)
    → IsBatch b xs
    → link_next p b ≡ join_batch b (record { total = 1; start = p; end = p; links = b.links })
unfolding join_batch
link_next-join_batch b [] p v = rw (v.last, v.counted) refl
link_next-join_batch b (x ∷ xs) p v =
    let real : (b.end == null) ≡ false =
      ne→== b.end null (λ t. last-ne_null b.links null b.start x xs v.chain (sym v.last ∙ t)) in
    let some_before : (b.total == 0) ≡ false =
      ne→== b.total 0 (λ t. absurd (omega (arith, t, v.counted))) in
    rw (real, some_before) refl

-- The loop of csp_timer_heap_get.
pub link_list-IsBatch :
    (ps : List Ptr) (b : Batch) (xs : List Ptr)
    → IsBatch b xs
    → ((a : Ptr) → has a ps ≡ true → Detached b.links a)
    → Distinct ps
    → Apart xs ps
    → IsBatch (link_list ps b) (xs ++ ps)
      × ((a : Ptr) → has a xs ≡ false → has a ps ≡ false → (link_list ps b).links a ≡ b.links a)
link_list-IsBatch [] b xs v free d apart =
    (subst (IsBatch b) (sym (append-nil xs)) v, λ a out_x out_p. refl)
link_list-IsBatch (p ∷ ps) b xs v free (new, d) apart =
    let one : Batch = record { total = 1; start = p; end = p; links = b.links } in
    let alone = free p (rw (eq→== p p refl) refl) in
    let single : IsBatch one (p ∷ []) = record {
      chain = (refl, alone.ne_null, alone.no_pre, alone.no_next);
      last = refl;
      counted = refl;
      distinct = (refl, tt);
    } in
    let before : Apart xs (p ∷ []) = λ a i. let out = apart a i in ground arith in
    let same = link_next-join_batch b xs p v in
    let next : IsBatch (link_next p b) (xs ++ p ∷ []) =
      subst (λ r. IsBatch r (xs ++ p ∷ [])) (sym same)
        (join_batch-IsBatch b one xs (p ∷ []) v single before) in
    let kept : (a : Ptr)
        → has a xs ≡ false
        → (p == a) ≡ false
        → (link_next p b).links a ≡ b.links a =
      λ a out_x other.
        ap (λ (r : Batch). r.links a) same
        ∙ join_batch-other b one xs (p ∷ []) a v single out_x (rw other refl) in
    let apart_p : (a : Ptr) → has a ps ≡ true → (p == a) ≡ false =
      λ a i. ne→== p a (λ t. absurd (cc (ap (λ x. has x ps) t ∙ i, new))) in
    let apart_x : (a : Ptr) → has a ps ≡ true → has a xs ≡ false = λ a i.
      elim (Bool-cases (has a xs)) [
        | inl both ↦ absurd (let out = apart a both in ground arith)
        | inr out ↦ out
      ] in
    let (rest, others) =
      link_list-IsBatch ps (link_next p b) (xs ++ p ∷ []) next
        (λ a i.
          let link = kept a (apart_x a i) (apart_p a i) in
          let was = free a (ground arith) in
          record {
            ne_null = was.ne_null;
            no_pre = ap (λ (l : Link). l.pre) link ∙ was.no_pre;
            no_next = ap (λ (l : Link). l.next) link ∙ was.no_next;
          })
        d
        (λ a i. elim (Bool-cases (has a ps)) [
          | inl again ↦ absurd (
              let out = apart_x a again in
              let other = apart_p a again in ground (arith, has-append a xs (p ∷ [])))
          | inr out ↦ out
        ]) in
    (
      subst (IsBatch (link_list ps (link_next p b))) (append_assoc xs (p ∷ []) ps) rest,
      λ a out_x out_p.
          let other : (p == a) ≡ false = ground arith in
          let out_ps : has a ps ≡ false = ground arith in
          others a (has-append a xs (p ∷ []) ∙ rw (out_x, other) refl) out_ps ∙ kept a out_x other,
    )
