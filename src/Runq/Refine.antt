-- ===== src/Runq/Refine.antt =====
-- csp_lrunq_push, csp_lrunq_push_front and csp_lrunq_try_pop_front of src/runq.c against the
-- list of processes that the queue stands for.
use shiyanhui_libcsp.Base.{
  last_of, last_of-has, ℕ, suc, ◌+◌, ◌-◌, ◌%◌, ◌<◌, ◌^◌, ◌≡◌, ◌≢◌, refl, List, [], ◌∷◌, ◌++◌, true,
  false, some, arith, has, Distinct, length, ◌==◌, update, length-append, bit_and, bit_and-mask,
  if◌then◌else◌, subst, ne→==, Bool-cases, inl, inr,
}
use shiyanhui_libcsp.Runq.{
  Ptr, null, Links, Lrunq, push, push_front, Popped, ok, failed, missed, try_pop_front, unlink_head,
}
use shiyanhui_libcsp.Runq.Chain.{Chain, IsQueue, Detached, Chain-frame, last-ne_null}

-- What the two writes of `push` leave: the last process leads to `new`, and `new` ends the chain.
record Linked (h g : Links) (last new : Ptr) : Type 0 where
  forth : (g last).next ≡ new
  kept : (g last).pre ≡ (h last).pre
  back : (g new).pre ≡ last
  end : (g new).next ≡ null

Chain-snoc :
    (h g : Links) (pre p x new : Ptr) (xs : List Ptr)
    → Linked h g (last_of x xs) new
    → ((a : Ptr) → has a (x ∷ xs) ≡ true → a ≢ last_of x xs → g a ≡ h a)
    → new ≢ null
    → Distinct (x ∷ xs)
    → Chain h pre p (x ∷ xs)
    → Chain g pre p ((x ∷ xs) ++ new ∷ [])
Chain-snoc h g pre p x new [] l same n d c = ground arith
Chain-snoc h g pre p x new (y ∷ ys) l same n d c =
    let here : g x ≡ h x = same x (ground arith) (ground (arith, last_of-has x y ys)) in
    let rest = Chain-snoc h g x (h x).next y new ys l (λ a i. same a (ground arith)) n d.1 c.3 in
    (c.0, c.1, ground arith, ground arith)

last_of-snoc : (pre new : Ptr) (xs : List Ptr) → last_of pre (xs ++ new ∷ []) ≡ new
last_of-snoc pre new [] = refl
last_of-snoc pre new (x ∷ xs) = last_of-snoc x new xs

has-append : (a b : Ptr) (xs : List Ptr) → has a xs ≡ false → b ≢ a → has a (xs ++ b ∷ []) ≡ false
has-append a b [] h n = ground arith
has-append a b (x ∷ xs) h n = ground (arith, has-append a b xs)

Distinct-snoc : (b : Ptr) (xs : List Ptr) → has b xs ≡ false → Distinct xs → Distinct (xs ++ b ∷ [])
Distinct-snoc b [] h d = ground arith
Distinct-snoc b (x ∷ xs) h d =
    (has-append x b xs d.0 (ground arith), Distinct-snoc b xs (ground arith) d.1)

-- The links after `last->next = p; p->pre = last;`.
abbrev pub join : Links → Ptr → Ptr → Links
join h last p =
    let h1 = update h last (record (h last) { next = p }) in
    update h1 p (record (h1 p) { pre = last })

-- `csp_lrunq_push` of a process that is on no queue does not fault, puts it behind all others, and
-- leaves the count of pops alone.
pub push-snoc :
    (h : Links) (q : Lrunq) (xs : List Ptr) (proc : Ptr)
    → IsQueue h q xs
    → Detached h proc
    → has proc xs ≡ false
    → suc (length xs) < 2 ^ 64
    → (r : Lrunq × Links) × (push q proc h ≡ some r)
      × IsQueue r.1 r.0 (xs ++ proc ∷ [])
      × (r.0.poped_times ≡ q.poped_times)
unfolding push
push-snoc h q [] proc v d new room = (
  (record q { head = proc; tail = proc; len = (q.len + 1) % 2 ^ 64 }, h),
  ground arith,
  ground arith,
  refl,
)
push-snoc h q (x ∷ xs) proc v d new room =
    let last = last_of x xs in
    let real : last ≢ null = last-ne_null h null q.head x xs v.chain in
    let other : last ≢ proc = ground (arith, last_of-has x x xs) in
    (
      (record q { tail = proc; len = (q.len + 1) % 2 ^ 64 }, join h last proc),
      ground arith,
      record {
        chain =
            Chain-snoc h (join h last proc) null q.head x proc xs (ground arith)
              (λ a i n. ground arith) d.ne_null v.distinct v.chain;
        tail = ground (arith, last_of-snoc x proc xs);
        distinct = Distinct-snoc proc (x ∷ xs) new v.distinct;
        counted = omega (arith, v.counted, length-append xs (proc ∷ []));
        small = omega (arith, length-append xs (proc ∷ []));
      },
      refl,
    )

-- `csp_lrunq_push_front` of a process that is on no queue does not fault, puts it before all
-- others, and leaves the count of pops alone.
pub push_front-cons :
    (h : Links) (q : Lrunq) (xs : List Ptr) (proc : Ptr)
    → IsQueue h q xs
    → Detached h proc
    → has proc xs ≡ false
    → suc (length xs) < 2 ^ 64
    → (r : Lrunq × Links) × (push_front q proc h ≡ some r)
      × IsQueue r.1 r.0 (proc ∷ xs)
      × (r.0.poped_times ≡ q.poped_times)
unfolding push_front
push_front-cons h q [] proc v d new room = (
  (record q { head = proc; tail = proc; len = (q.len + 1) % 2 ^ 64 }, h),
  ground arith,
  ground arith,
  refl,
)
push_front-cons h q (x ∷ xs) proc v d new room =
    let g = join h proc x in
    let same : (a : Ptr) → has a xs ≡ true → g a ≡ h a = λ a i. ground arith in
    let rest : Chain g x (h x).next xs = Chain-frame h g x (h x).next xs same v.chain.3 in
    (
      (record q { head = proc; len = (q.len + 1) % 2 ^ 64 }, g),
      ground arith,
      record {
        chain =
            (refl, d.ne_null, ground arith, (ground arith, v.chain.1, ground arith, ground arith));
        tail = ground arith;
        distinct = (new, v.distinct);
        counted = omega arith;
        small = omega arith;
      },
      refl,
    )

-- What a pop answers, by the count of pops and the processes in the queue: every thirty-second
-- call is a miss, an empty queue a failure, any other call takes the first process.
unfoldable pub pop_spec : ℕ → List Ptr → Popped × List Ptr × ℕ
pop_spec times xs =
    if times % 32 == 31
    then (missed, xs, times + 1)
    else elim xs [ [] ↦ (failed, [], times) | x ∷ rest ↦ (ok x, rest, times + 1) ]

-- The links after the head `x` is unlinked from the process `y` behind it.
abbrev cut : Links → Ptr → Ptr → Links
cut h x y =
    let h1 = update h y (record (h y) { pre = null }) in update h1 x (record (h1 x) { next = null })

unlink_head-tail :
    (h : Links) (q : Lrunq) (x : Ptr) (xs : List Ptr)
    → IsQueue h q (x ∷ xs)
    → (r : Lrunq × Links) × (unlink_head q h ≡ some r)
      × IsQueue r.1 (record r.0 { len = q.len - 1 }) xs
      × Detached r.1 x
      × (r.0.len ≡ q.len)
      × (r.0.poped_times ≡ q.poped_times)
unfolding unlink_head
unlink_head-tail h q x [] v = (
  (record q { head = null; tail = null }, h),
  ground arith,
  ground arith,
  ground arith,
  refl,
  refl,
)
unlink_head-tail h q x (y ∷ ys) v =
    let apart : x ≢ last_of y ys = ground (arith, last_of-has x y ys) in
    let g = cut h x y in
    let same : (a : Ptr) → has a ys ≡ true → g a ≡ h a = λ a i. ground arith in
    let rest : Chain g y (h y).next ys = Chain-frame h g y (h y).next ys same v.chain.3.3 in
    (
      (record q { head = y }, g),
      ground arith,
      record {
        chain = (refl, v.chain.3.1, ground arith, ground arith);
        tail = v.tail;
        distinct = v.distinct.1;
        counted = omega arith;
        small = omega arith;
      },
      ground arith,
      refl,
      refl,
    )

-- The calls that are no miss.
pop_turn :
    (h : Links) (q : Lrunq) (xs : List Ptr)
    → IsQueue h q xs
    → q.poped_times + 1 < 2 ^ 63
    → (bit_and q.poped_times 0x1f == 0x1f) ≡ false
    → (q.poped_times % 32 == 31) ≡ false
    → (r : Popped × Lrunq × Links) × (try_pop_front q h ≡ some r)
      × (r.0 ≡ (pop_spec q.poped_times xs).0)
      × IsQueue r.2 r.1 (pop_spec q.poped_times xs).1
      × (r.1.poped_times ≡ (pop_spec q.poped_times xs).2)
      × ((p : Ptr) → r.0 ≡ ok p → Detached r.2 p)
unfolding try_pop_front pop_spec
pop_turn h q [] v t turn turn' =
    ((failed, q, h), ground arith, ground arith, ground arith, ground arith, λ p e. cc)
pop_turn h q (x ∷ xs) v t turn turn' =
    let ((q1, h1), took, rest, alone, len, times) = unlink_head-tail h q x xs v in
    let real : q.head ≢ null = ground arith in
    let q2 = record q1 {
      len = (q1.len + 2 ^ 64 - 1) % 2 ^ 64;
      poped_times = (q1.poped_times + 1) % 2 ^ 64;
    } in
    (
      (ok q.head, q2, h1),
      rw (turn, ne→== q.head null real, took),
      ground arith,
      rw turn' (record {
        chain = rest.chain;
        tail = rest.tail;
        distinct = rest.distinct;
        counted = omega arith;
        small = omega arith;
      }),
      rw turn' (omega arith),
      λ p e. let same : x ≡ p = ground arith in subst (Detached h1) same alone,
    )

-- `csp_lrunq_try_pop_front` does not fault. Its answer, the processes that stay and the count of
-- pops are those of `pop_spec`, and a process that it hands out is on no queue.
pub try_pop_front-pop_spec :
    (h : Links) (q : Lrunq) (xs : List Ptr)
    → IsQueue h q xs
    → q.poped_times + 1 < 2 ^ 63
    → (r : Popped × Lrunq × Links) × (try_pop_front q h ≡ some r)
      × (r.0 ≡ (pop_spec q.poped_times xs).0)
      × IsQueue r.2 r.1 (pop_spec q.poped_times xs).1
      × (r.1.poped_times ≡ (pop_spec q.poped_times xs).2)
      × ((p : Ptr) → r.0 ≡ ok p → Detached r.2 p)
unfolding try_pop_front pop_spec
try_pop_front-pop_spec h q xs v t =
    let mask : bit_and q.poped_times 0x1f ≡ q.poped_times % 32 = bit_and-mask 5 q.poped_times in
    elim (Bool-cases (q.poped_times % 32 == 31)) [
      | inl miss ↦ (
        (missed, record q { poped_times = (q.poped_times + 1) % 2 ^ 64 }, h),
        rw (mask, miss),
        rw miss,
        rw miss (ground arith),
        rw miss (omega arith),
        λ p e. cc,
      )
      | inr turn ↦ pop_turn h q xs v t (rw mask turn) turn
    ]

-- `csp_lrunq_push` and `csp_lrunq_push_front` of a process that is on no queue do not fault; the one
-- puts it behind all others and the other before them, and both leave the count of pops alone.
both_ends :
    (h : Links) (q : Lrunq) (xs : List Ptr) (proc : Ptr)
    → IsQueue h q xs
    → Detached h proc
    → has proc xs ≡ false
    → suc (length xs) < 2 ^ 64
    → ((r : Lrunq × Links) × (push q proc h ≡ some r)
        × IsQueue r.1 r.0 (xs ++ proc ∷ [])
        × (r.0.poped_times ≡ q.poped_times))
      × ((r : Lrunq × Links) × (push_front q proc h ≡ some r)
          × IsQueue r.1 r.0 (proc ∷ xs)
          × (r.0.poped_times ≡ q.poped_times))
both_ends h q xs proc v d new room =
    (push-snoc h q xs proc v d new room, push_front-cons h q xs proc v d new room)
