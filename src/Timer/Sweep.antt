-- ===== src/Timer/Sweep.antt =====
-- csp_timer_poll of src/timer.c takes what is due from every heap and links it to one list.
use shiyanhui_libcsp.Base.{
  ℕ, zero, suc, ◌≤◌, ◌<◌, ◌^◌, ◌≡◌, refl, sym, ap, subst, ◌∙◌, List, [], true, false, arith, ◌==◌,
  ne→==, has, has-append, total, update, inl, inr, Bool-cases,
}
use shiyanhui_libcsp.Runq.{Ptr, Link, Links, new, set}
use shiyanhui_libcsp.Runq.Chain.{IsQueue, Detached}
use shiyanhui_libcsp.Timer.{Heap, get}
use shiyanhui_libcsp.Timer.Order.{IsHeap, Among}
use shiyanhui_libcsp.Timer.Poll.{Expired, get-Expired}
use shiyanhui_libcsp.Timer.Heaps.{
  no_batch, link_list, Sweep, join_batch, poll_heap, poll_heaps, poll,
}
use shiyanhui_libcsp.Timer.Batches.{
  IsBatch, Apart, IsBatch-frame, join_batch-IsBatch, join_batch-other, link_list-IsBatch,
}
use shiyanhui_libcsp.Timer.Collect.{
  get-Distinct, collected, collected-length, collected-has, has-collected,
}

-- The heaps are in order, no process is in two of them, and each is ready to be linked.
pub record AreHeaps (len : ℕ) (heaps : ℕ → Heap) (links : Links) : Type 0 where
  pub heap : (k : ℕ) → k < len → IsHeap (heaps k).len (heaps k).slots
  pub one_heap :
      (j k : ℕ) (p : Ptr)
      → j < len
      → k < len
      → Among (heaps j).len (heaps j).slots p
      → Among (heaps k).len (heaps k).slots p
      → j ≡ k
  pub detached :
      (k : ℕ) (p : Ptr) → k < len → Among (heaps k).len (heaps k).slots p → Detached links p

-- The sweep behind the first `n` heaps.
record Swept (now : ℕ → ℕ) (heaps : ℕ → Heap) (links : Links) (n : ℕ) (s : Sweep) : Type 0 where
  batch : IsBatch s.batch (collected n now heaps)
  others : (a : Ptr) → has a (collected n now heaps) ≡ false → s.batch.links a ≡ links a
  earlier : (k : ℕ) → k < n → s.heaps k ≡ (get (heaps k) (now k)).1
  later : (k : ℕ) → n ≤ k → s.heaps k ≡ heaps k

module _ (len : ℕ) (now : ℕ → ℕ) (heaps : ℕ → Heap) (links : Links)
    (h : AreHeaps len heaps links) where
  poll_heap-Swept :
      (n : ℕ) (s : Sweep)
      → n < len
      → Swept now heaps links n s
      → Swept now heaps links (suc n) (poll_heap n (now n) s)
  poll_heap-Swept n s below v =
      let x = get-Expired (heaps n) (now n) (h.heap n below) in
      let ps = (get (heaps n) (now n)).0 in
      let before = collected n now heaps in
      let apart : Apart before ps = λ a i. elim (Bool-cases (has a ps)) [
        | inl both ↦
            let (k, early, found) = collected-has n now heaps a i in
            let y = get-Expired (heaps k) (now k) (h.heap k (omega arith)) in
            let same =
              h.one_heap k n a (omega arith) below (y.0.taken a found).0 (x.0.taken a both).0 in
            absurd (omega (arith, same))
        | inr out ↦ out
      ] in
      let apart' : (a : Ptr) → has a ps ≡ true → has a before ≡ false = λ a i.
        elim (Bool-cases (has a before)) [
          | inl both ↦ absurd (cc (apart a both, i))
          | inr out ↦ out
        ] in
      let free : (a : Ptr) → has a ps ≡ true → Detached s.batch.links a = λ a i.
        let was = h.detached n a below (x.0.taken a i).0 in
        let link = v.others a (apart' a i) in
        record {
          ne_null = was.ne_null;
          no_pre = ap (λ (l : Link). l.pre) link ∙ was.no_pre;
          no_next = ap (λ (l : Link). l.next) link ∙ was.no_next;
        } in
      let (part, kept) =
        link_list-IsBatch ps (no_batch s.batch.links) []
          (record { chain = refl; last = refl; counted = refl; distinct = tt }) free
          (get-Distinct (heaps n) (now n) (h.heap n below)) (λ a i. absurd (cc i)) in
      let b = link_list ps (no_batch s.batch.links) in
      let earlier_list =
        IsBatch-frame s.batch b.links before (λ a i. kept a refl (apart a i)) v.batch in
      let next : Heap → Sweep = λ g. record {
        heaps = update s.heaps n (get g (now n)).1;
        batch = join_batch s.batch (link_list (get g (now n)).0 (no_batch s.batch.links));
      } in
      let done : Swept now heaps links (suc n) (next (heaps n)) = record {
        batch = join_batch-IsBatch s.batch b before ps earlier_list part apart;
        others = λ a o.
            let split = sym (has-append a before ps) ∙ o in
            let out_x : has a before ≡ false = ground arith in
            let out_y : has a ps ≡ false = ground arith in
            join_batch-other s.batch b before ps a earlier_list part out_x out_y
            ∙ kept a refl out_y
            ∙ v.others a out_x;
        earlier = λ k b. elim (Bool-cases (n == k)) [
          | inl here ↦
              let same : n ≡ k = ground arith in rw here (ap (λ j. (get (heaps j) (now j)).1) same)
          | inr other ↦ rw other (v.earlier k (ground arith))
        ];
        later = λ k b.
            let other : (n == k) ≡ false = ne→== n k (λ t. absurd (omega (arith, t))) in
            rw other (v.later k (omega arith));
      } in
      subst (λ g. Swept now heaps links (suc n) (next g)) (sym (v.later n (omega arith))) done

  poll_heaps-Swept :
      (n : ℕ)
      → n ≤ len
      → Swept now heaps links n
          (poll_heaps n now (record { heaps = heaps; batch = no_batch links }))
  unfolding poll_heaps
  poll_heaps-Swept zero fits = record {
    batch = record { chain = refl; last = refl; counted = refl; distinct = tt };
    others = λ a o. refl;
    earlier = λ k b. absurd (omega arith);
    later = λ k b. refl;
  }
  poll_heaps-Swept (suc n) fits =
      poll_heap-Swept n _ (omega arith) (poll_heaps-Swept n (omega arith))

-- What a poll of all heaps comes to.
pub record Gathered (len : ℕ) (now : ℕ → ℕ) (heaps : ℕ → Heap) (links : Links) (s : Sweep)
    : Type 0 where
  pub listed : List Ptr
  pub queue : IsQueue s.batch.links (set new s.batch.total s.batch.start s.batch.end) listed
  pub due :
      (k : ℕ) (p : Ptr)
      → k < len
      → Among (heaps k).len (heaps k).slots p
      → (heaps k).slots.when p ≤ now k
      → has p listed ≡ true
  pub only :
      (p : Ptr)
      → has p listed ≡ true
      → (k : ℕ) × (k < len)
        × Among (heaps k).len (heaps k).slots p
        × ((heaps k).slots.when p ≤ now k)
  pub left : (k : ℕ) → k < len → Expired (heaps k) (now k) ((get (heaps k) (now k)).0, s.heaps k)
  pub others : (a : Ptr) → has a listed ≡ false → s.batch.links a ≡ links a

-- Where the heaps are in order, no process is in two of them, none is on a list and there are fewer
-- than 2^31, `csp_timer_poll` makes a well-formed list of exactly the processes that are due in
-- some heap at the time that the clock shows for it, each once, and takes just these out of the
-- heaps, which stay in order.
pub poll-Gathered :
    (len : ℕ) (now : ℕ → ℕ) (heaps : ℕ → Heap) (links : Links)
    → AreHeaps len heaps links
    → total len (λ k. (heaps k).len) < 2 ^ 31
    → Gathered len now heaps links (poll len now heaps links)
unfolding poll
poll-Gathered len now heaps links h few =
    let v = poll_heaps-Swept len now heaps links h len (omega arith) in
    let x : (k : ℕ) → k < len → Expired (heaps k) (now k) (get (heaps k) (now k)) =
      λ k b. (get-Expired (heaps k) (now k) (h.heap k b)).0 in
    record {
      listed = collected len now heaps;
      queue = record {
        chain = v.batch.chain;
        tail = v.batch.last;
        distinct = v.batch.distinct;
        counted = v.batch.counted;
        small = omega (arith, collected-length len now heaps h.heap);
      };
      due = λ k p b a t. has-collected len now heaps p k b ((x k b).due p a t);
      only = λ p i.
          let (k, b, found) = collected-has len now heaps p i in
          let (a, t) = (x k b).taken p found in (k, b, a, t);
      left = λ k b.
          subst (λ g. Expired (heaps k) (now k) ((get (heaps k) (now k)).0, g))
            (sym (v.earlier k b)) (x k b);
      others = v.others;
    }
