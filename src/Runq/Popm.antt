-- ===== src/Runq/Popm.antt =====
-- csp_lrunq_popm_front of src/runq.c: a queue is cut in two, and csp_lrunq_set of src/runq.h
-- makes a queue of the part cut off.
use shiyanhui_libcsp.Base.{
  last_of, last_of-has, suc, ◌+◌, ◌-◌, ◌%◌, ◌^◌, ◌≡◌, ◌≢◌, refl, List, [], ◌∷◌, ◌++◌, true, false,
  some, arith, has, Distinct, length, update, length-append, append-nil, ◌∙◌, ap,
}
use shiyanhui_libcsp.Runq.{Ptr, null, Links, Lrunq, set, advance, popm_front}
use shiyanhui_libcsp.Runq.Chain.{Chain, IsQueue, Chain-frame}

-- The loop walks past the processes `fs`.
advance-append :
    (h : Links) (pre p : Ptr) (fs bs : List Ptr)
    → Chain h pre p (fs ++ bs)
    → (b : Ptr) × (advance (length fs) p h ≡ some b) × Chain h (last_of pre fs) b bs
unfolding advance
advance-append h pre p [] bs c = (p, refl, c)
advance-append h pre p (x ∷ fs) bs c =
    let (b, walked, rest) = advance-append h x (h x).next fs bs c.3 in (b, ground arith, rest)

has-append_left : (a : Ptr) (fs bs : List Ptr) → has a (fs ++ bs) ≡ false → has a fs ≡ false
has-append_left a [] bs h = refl
has-append_left a (x ∷ fs) bs h = ground (arith, has-append_left a fs bs)

has-append_right : (a : Ptr) (fs bs : List Ptr) → has a (fs ++ bs) ≡ false → has a bs ≡ false
has-append_right a [] bs h = h
has-append_right a (x ∷ fs) bs h = has-append_right a fs bs (ground arith)

Distinct-append :
    (fs bs : List Ptr)
    → Distinct (fs ++ bs)
    → Distinct fs × Distinct bs × ((a : Ptr) → has a fs ≡ true → has a bs ≡ false)
Distinct-append [] bs d = (tt, d, λ a i. cc)
Distinct-append (x ∷ fs) bs d =
    let (front, back, apart) = Distinct-append fs bs d.1 in
    (
      (has-append_left x fs bs d.0, front),
      back,
      λ a i. ground (arith, apart a, has-append_right x fs bs d.0),
    )

-- Where the last process of `fs` leads to NULL, the chain ends with `fs`.
Chain-cut :
    (h g : Links) (pre p x : Ptr) (fs bs : List Ptr)
    → (g (last_of x fs)).next ≡ null
    → (g (last_of x fs)).pre ≡ (h (last_of x fs)).pre
    → ((a : Ptr) → has a (x ∷ fs) ≡ true → a ≢ last_of x fs → g a ≡ h a)
    → Distinct (x ∷ fs)
    → Chain h pre p ((x ∷ fs) ++ bs)
    → Chain g pre p (x ∷ fs)
Chain-cut h g pre p x [] bs e k same d c = ground arith
Chain-cut h g pre p x (y ∷ fs) bs e k same d c =
    let here : g x ≡ h x = same x (ground arith) (ground (arith, last_of-has x y fs)) in
    let rest = Chain-cut h g x (h x).next y fs bs e k (λ a i. same a (ground arith)) d.1 c.3 in
    (c.0, c.1, ground arith, ground arith)

cut-ne_null :
    (h : Links) (pre p x : Ptr) (fs bs : List Ptr)
    → Chain h pre p ((x ∷ fs) ++ bs)
    → last_of x fs ≢ null
cut-ne_null h pre p x [] bs c = c.1
cut-ne_null h pre p x (y ∷ fs) bs c = cut-ne_null h x (h x).next y fs bs c.3

last_of-append : (pre b : Ptr) (fs bs : List Ptr) → last_of pre (fs ++ b ∷ bs) ≡ last_of b bs
last_of-append pre b [] bs = refl
last_of-append pre b (x ∷ fs) bs = last_of-append x b fs bs

-- The links after `b->pre = NULL; e->next = NULL;`.
abbrev split : Links → Ptr → Ptr → Links
split h e b =
    let h1 = update h b (record (h b) { pre = null }) in update h1 e (record (h1 e) { next = null })

-- `csp_lrunq_popm_front` of `n` processes, `0 < n`, does not fault where the queue holds at least
-- `n`. The queue keeps the processes behind the first `n`, and any queue that `csp_lrunq_set` gives
-- the part cut off holds the first `n`, both in their order.
pub popm_front-split :
    (h : Links) (q other : Lrunq) (x : Ptr) (fs bs : List Ptr)
    → IsQueue h q ((x ∷ fs) ++ bs)
    → (r : (Ptr × Ptr) × Lrunq × Links) × (popm_front q (suc (length fs)) h ≡ some r)
      × IsQueue r.2 (set other (suc (length fs)) r.0.0 r.0.1) (x ∷ fs)
      × IsQueue r.2 r.1 bs
unfolding popm_front
popm_front-split h q other x fs [] v =
    let w : IsQueue h q (x ∷ fs) = rw (append-nil (x ∷ fs)) at v in
    let none_left : (q.len + 2 ^ 64 - suc (length fs)) % 2 ^ 64 ≡ 0 = omega arith in
    (
      ((q.head, q.tail), record q { head = null; tail = null; len = 0 }, h),
      rw none_left,
      record {
        chain = w.chain;
        tail = w.tail;
        distinct = w.distinct;
        counted = refl;
        small = w.small;
      },
      record { chain = refl; tail = refl; distinct = tt; counted = refl; small = omega arith },
    )
popm_front-split h q other x fs (b ∷ bs) v =
    let (p, walked, rest) = advance-append h null q.head (x ∷ fs) (b ∷ bs) v.chain in
    let (front, back, apart) = Distinct-append (x ∷ fs) (b ∷ bs) v.distinct in
    let e = last_of x fs in
    let size = length-append fs (b ∷ bs) in
    let left : (q.len + 2 ^ 64 - suc (length fs)) % 2 ^ 64 ≡ suc (length bs) =
      omega (arith, size) in
    let at : advance (suc (length fs)) q.head h ≡ some b = walked ∙ ap some rest.0 in
    let e_real : e ≢ null = cut-ne_null h null q.head x fs (b ∷ bs) v.chain in
    let g = split h e b in
    let same : (a : Ptr) → has a bs ≡ true → g a ≡ h a =
      λ a i. ground (arith, apart e, last_of-has x x fs) in
    let behind : Chain g b (h b).next bs = Chain-frame h g b (h b).next bs same rest.3 in
    let ne : b ≢ e = ground (arith, apart e, last_of-has x x fs) in
    (
      ((q.head, e), record q { head = b; len = suc (length bs) }, split h e b),
      rw (left, at, rest.2) (ground arith),
      record {
        chain =
            Chain-cut h (split h e b) null q.head x fs (b ∷ bs) (ground arith) (ground arith)
              (λ a i n. ground (arith, apart a i)) front v.chain;
        tail = refl;
        distinct = front;
        counted = refl;
        small = omega (arith, size);
      },
      record {
        chain = (refl, rest.1, ground arith, ground arith);
        tail = v.tail ∙ last_of-append x b fs bs;
        distinct = back;
        counted = refl;
        small = omega (arith, size);
      },
    )
