-- ===== src/Netpoll/Join.antt =====
-- A process joins the list that csp_netpoll_poll of src/netpoll.c builds, as a push joins a run queue.
use shiyanhui_libcsp.Base.{
  suc, ◌+◌, ◌%◌, ◌^◌, ◌<◌, ◌≡◌, ◌≢◌, refl, sym, ap, ◌∙◌, arith, Bool, true, false, some, List, [],
  ◌∷◌, ◌++◌, ◌==◌, has, has-append, last_of, last_of-has, none, length, update, ◌⊎◌, inl, inr,
  Bool-cases, subst, not, ◌&&◌, ◌||◌, eq→==, ne→==, bit_and,
}
use shiyanhui_libcsp.Runq.{Ptr, null, Link, Links, Lrunq, new, set, push}
use shiyanhui_libcsp.Runq.Chain.{IsQueue, Detached}
use shiyanhui_libcsp.Runq.Refine.{push-snoc}
use shiyanhui_libcsp.Netpoll.{stat_waiting, stat_avail, Netpoll, Event, Woken, mask_of, link_up}

-- The queue that csp_lrunq_set makes of the list.
abbrev pub as_queue : Woken → Lrunq
as_queue l = set new l.len l.head l.tail

-- A process joins the list as a push joins a queue.
link_up-push :
    (p : Ptr) (l : Woken) (s : Netpoll)
    → p ≢ null
    → l.len + 1 < 2 ^ 64
    → push (as_queue l) p s.links ≡ some (as_queue (link_up p l s).0, (link_up p l s).1.links)
unfolding push link_up
link_up-push p l s real room = elim (Bool-cases (l.tail == null)) [
  | inl first ↦ let len : (l.len + 1) % 2 ^ 64 ≡ l.len + 1 = omega arith in rw (first, len) refl
  | inr later ↦
      let len : (l.len + 1) % 2 ^ 64 ≡ l.len + 1 = omega arith in
      rw (later, ne→== p null real, len) refl
]

-- What joining leaves alone.
link_up-frame :
    (p : Ptr) (l : Woken) (s : Netpoll)
    → ((link_up p l s).1.stats ≡ s.stats)
      × ((link_up p l s).1.waiters ≡ s.waiters)
      × ((link_up p l s).0.len ≡ l.len + 1)
      × ((a : Ptr) → a ≢ p → (l.tail ≡ null) ⊎ (a ≢ l.tail) → (link_up p l s).1.links a ≡ s.links a)
unfolding link_up
link_up-frame p l s = elim (Bool-cases (l.tail == null)) [
  | inl first ↦ rw first (refl, refl, refl, λ a n m. refl)
  | inr later ↦
      rw later
        (refl, refl, refl, λ a n m. elim m [ inl e ↦ absurd (ground arith) | inr e ↦ ground arith ])
]

-- Whether an event wakes process `p`: the process waits for it.
abbrev pub wakes : Netpoll → Event → Ptr → Bool
wakes s evt p =
    let w = s.waiters evt.fd in
    not (w.proc == null)
    && not (bit_and (mask_of evt.events) w.waiting_evt == 0)
    && (s.stats w.proc == stat_waiting)
    && (w.proc == p)

abbrev pub served : Netpoll → List Event → Ptr → Bool
served s [] p = false
served s (evt ∷ evts) p = wakes s evt p || served s evts p

-- What a poll has done to `s0` when it has listed `xs`.
pub record Listed (s0 : Netpoll) (xs : List Ptr) (l : Woken) (s : Netpoll) : Type 0 where
  pub queue : IsQueue s.links (as_queue l) xs
  pub woken : (p : Ptr) → has p xs ≡ true → (s0.stats p ≡ stat_waiting) × (s.stats p ≡ stat_avail)
  pub others : (p : Ptr) → has p xs ≡ false → (s.stats p ≡ s0.stats p) × (s.links p ≡ s0.links p)
  pub waiters : s.waiters ≡ s0.waiters

-- Processes that wait are on no queue.
abbrev pub WaitersDetached : Netpoll → Type 0
WaitersDetached s = (p : Ptr) → s.stats p ≡ stat_waiting → Detached s.links p

tail-apart :
    (xs : List Ptr) (a : Ptr) → has a xs ≡ false → (last_of null xs ≡ null) ⊎ (a ≢ last_of null xs)
tail-apart [] a h = inl refl
tail-apart (y ∷ ys) a h = inr (λ e.
    let in_list = last_of-has null y ys in
    absurd (cc (sym h ∙ ap (λ t. has t (y ∷ ys)) e ∙ in_list)))

pub join-Listed :
    (s0 : Netpoll) (xs : List Ptr) (l : Woken) (cs : List Ptr) (s : Netpoll) (p : Ptr)
    → WaitersDetached s0
    → Listed s0 xs l s
    → has p xs ≡ false
    → s0.stats p ≡ stat_waiting
    → suc (length xs) < 2 ^ 64
    → let r =
        link_up p
          (record l { cancelled = cs })
          (record s { stats = update s.stats p stat_avail }) in
      Listed s0 (xs ++ p ∷ []) r.0 r.1
join-Listed s0 xs l cs s p d v fresh waits room =
    let s1 : Netpoll = record s { stats = update s.stats p stat_avail } in
    let l1 : Woken = record l { cancelled = cs } in
    let (new_stats, old_link) = v.others p fresh in
    let a = d p waits in
    let alone : Detached s.links p = record {
      ne_null = a.ne_null;
      no_pre = ap (λ (k : Link). k.pre) old_link ∙ a.no_pre;
      no_next = ap (λ (k : Link). k.next) old_link ∙ a.no_next;
    } in
    let (q, done, is, times) = push-snoc s.links (as_queue l1) xs p v.queue alone fresh room in
    let same = link_up-push p l1 s1 alone.ne_null (omega (arith, v.queue.counted)) in
    let (stats, waiters, len, links) = link_up-frame p l1 s1 in
    let found : q ≡ (as_queue (link_up p l1 s1).0, (link_up p l1 s1).1.links) =
      ap (λ o. elim o [ none ↦ q | some x ↦ x ]) (sym done ∙ same) in
    record {
      queue = subst (λ (t : Lrunq × Links). IsQueue t.1 t.0 (xs ++ p ∷ [])) found is;
      woken = λ a h. elim (Bool-cases (p == a)) [
        | inl this ↦
            let eq : p ≡ a = ground arith in
            subst (λ x. (s0.stats x ≡ stat_waiting) × ((link_up p l1 s1).1.stats x ≡ stat_avail)) eq
              (waits, ap (λ f. f p) stats ∙ rw (eq→== p p refl) refl)
        | inr older ↦
            let (was, now) = v.woken a (ground (arith, has-append a xs (p ∷ []))) in
            (was, ap (λ f. f a) stats ∙ rw older now)
      ];
      others = λ a h.
          let out : has a xs ≡ false = ground (arith, has-append a xs (p ∷ [])) in
          let older : (p == a) ≡ false = ground (arith, has-append a xs (p ∷ [])) in
          let (stat, link) = v.others a out in
          let apart : (l.tail ≡ null) ⊎ (a ≢ l.tail) =
            subst (λ t. (t ≡ null) ⊎ (a ≢ t)) (sym v.queue.tail) (tail-apart xs a out) in
          (ap (λ f. f a) stats ∙ rw older stat, links a (ground arith) apart ∙ link);
      waiters = waiters ∙ v.waiters;
    }
