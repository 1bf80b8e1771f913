-- ===== src/Sched/Share.antt =====
-- The end of csp_sched_get, src/sched.c: the process that ran goes back to the local queue, and a
-- starving core gets half of the queue.
use shiyanhui_libcsp.Base.{
  ℕ, suc, ◌+◌, ◌-◌, ◌/◌, ◌%◌, ◌^◌, ◌<◌, ◌≡◌, ◌≢◌, inl, inr, refl, sym, ap, ◌∙◌, arith, false,
  Option, none, some, List, [], ◌∷◌, ◌++◌, ◌==◌, Bool-cases, update, length, subst, has,
  if◌then◌else◌, eq→==, ne→==, ◌>>=◌, take, drop, take-append-drop, length-take, length-append, ◌≤◌,
}
use shiyanhui_libcsp.Runq.{Ptr, null, set}
use shiyanhui_libcsp.Runq.Chain.{IsQueue, Detached}
use shiyanhui_libcsp.Runq.Refine.{push-snoc}
use shiyanhui_libcsp.Runq.Popm.{popm_front-split}
use shiyanhui_libcsp.Rbq.{Rbq, try_pop}
use shiyanhui_libcsp.Rbq.Ring.{IsRing, contents}
use shiyanhui_libcsp.Rbq.Pop.{Pops, try_pop-Pops}
use shiyanhui_libcsp.Sched.{Sched, runnable, put_back, hand_over, found}

-- The processes that can run on, with the one that ran last.
abbrev pub ready : Sched → List Ptr → List Ptr
ready s xs = if runnable s then xs ++ s.running ∷ [] else xs

-- A process that ran is on no queue.
pub record Leaves (xs : List Ptr) (s : Sched) : Type 0 where
  pub alone : s.running ≢ null → Detached s.links s.running
  pub new : has s.running xs ≡ false
  pub room : length xs + 2 < 2 ^ 64

put_back-ready :
    (pid : ℕ) (xs : List Ptr) (s : Sched)
    → IsQueue s.links (s.lrunqs pid) xs
    → Leaves xs s
    → (s1 : Sched) × (put_back pid s ≡ some s1)
      × IsQueue s1.links (s1.lrunqs pid) (ready s xs)
      × ((g : ℕ) → g ≢ pid → s1.lrunqs g ≡ s.lrunqs g)
      × (s1.starving_procs ≡ s.starving_procs)
unfolding put_back
put_back-ready pid xs s queue l = elim (Bool-cases (runnable s)) [
  | inl runs ↦
      let real : s.running ≢ null = ground arith in
      let (r, done, q, same) =
        push-snoc s.links (s.lrunqs pid) xs s.running queue (l.alone real) l.new (omega arith) in
      let s1 : Sched = record s { lrunqs = update s.lrunqs pid r.0; links = r.1 } in
      let here : s1.lrunqs pid ≡ r.0 = rw (eq→== pid pid refl) refl in
      rw (runs, done)
        (
          s1,
          refl,
          subst (λ l. IsQueue r.1 l (xs ++ s.running ∷ [])) (sym here) q,
          λ g ne. rw (ne→== pid g (λ t. ne (sym t))) refl,
          refl,
        )
  | inr rests ↦ rw rests (s, refl, queue, λ g ne. refl, refl)
]

-- What `found` leaves of the processes `all`: all of them, or the first half on the queue of the core
-- that is signalled and the others on the processor's own.
abbrev pub Shared : (pid : ℕ) → List Ptr → Sched → Option ℕ → Sched → Type 0
Shared pid all s none s' =
    IsQueue s'.links (s'.lrunqs pid) all × ((g : ℕ) → g ≢ pid → s'.lrunqs g ≡ s.lrunqs g)
Shared pid all s (some other) s' =
    (front : List Ptr) × (back : List Ptr) × (front ++ back ≡ all)
    × (length front ≡ (length all + 1) / 2)
    × IsQueue s'.links (s'.lrunqs other) front
    × IsQueue s'.links (s'.lrunqs pid) back
    × ((g : ℕ) → g ≢ pid → g ≢ other → s'.lrunqs g ≡ s.lrunqs g)
    × (contents s.starving_procs ≡ other ∷ contents s'.starving_procs)

hand_over-front :
    (pid other half : ℕ) (x : Ptr) (fs bs : List Ptr) (s : Sched)
    → other ≢ pid
    → half ≡ suc (length fs)
    → IsQueue s.links (s.lrunqs pid) ((x ∷ fs) ++ bs)
    → (s1 : Sched) × (hand_over pid other half s ≡ some s1)
      × IsQueue s1.links (s1.lrunqs other) (x ∷ fs)
      × IsQueue s1.links (s1.lrunqs pid) bs
      × ((g : ℕ) → g ≢ pid → g ≢ other → s1.lrunqs g ≡ s.lrunqs g)
      × (s1.starving_procs ≡ s.starving_procs)
unfolding hand_over
hand_over-front pid other half x fs bs s ne size queue =
    let l1 = s.lrunqs other in
    let (r, done, front, back) = popm_front-split s.links (s.lrunqs pid) l1 x fs bs queue in
    let lrunqs = update s.lrunqs pid r.1 in
    let s1 : Sched = record s {
      lrunqs = update lrunqs other (set (lrunqs other) (suc (length fs)) r.0.0 r.0.1);
      links = r.2;
    } in
    let there : lrunqs other ≡ l1 = rw (ne→== pid other (λ t. ne (sym t))) refl in
    let at_other : s1.lrunqs other ≡ set l1 (suc (length fs)) r.0.0 r.0.1 =
      rw (eq→== other other refl) (ap (λ l. set l (suc (length fs)) r.0.0 r.0.1) there) in
    let at_pid : s1.lrunqs pid ≡ r.1 = rw (ne→== other pid ne, eq→== pid pid refl) refl in
    (
      s1,
      rw (size, done) refl,
      subst (λ l. IsQueue r.2 l (x ∷ fs)) (sym at_other) front,
      subst (λ l. IsQueue r.2 l bs) (sym at_pid) back,
      λ g np no. rw (ne→== other g (λ t. no (sym t)), ne→== pid g (λ t. np (sym t))) refl,
      refl,
    )

-- The part behind the test of `half`, for a core `core` popped from the queue of starving cores.
hand_to :
    (e pid half : ℕ) (x : Ptr) (rest : List Ptr) (s : Sched) (core : Option ℕ) (q : Rbq ℕ)
    → half ≡ (suc (length rest) + 1) / 2
    → IsQueue s.links (s.lrunqs pid) (x ∷ rest)
    → has pid (contents s.starving_procs) ≡ false
    → Pops e false false s.starving_procs (core, q)
    → (r : Option ℕ × Sched) × ((let s2 = record s { starving_procs = q } in
          elim core [
            | none ↦ some (none, s2)
            | some other ↦ hand_over pid other half s2 >>= (λ s3. some (some other, s3))
          ])
        ≡ some r)
      × Shared pid (x ∷ rest) s r.0 r.1
hand_to e pid half x rest s none q size queue absent p =
    ((none, record s { starving_procs = q }), refl, (queue, λ g ne. refl))
hand_to e pid half x rest s (some other) q size queue absent p =
    let fs = take (half - 1) rest in
    let bs = drop (half - 1) rest in
    let whole : fs ++ bs ≡ rest = take-append-drop (half - 1) rest in
    let count : suc (length fs) ≡ half = omega (arith, length-take (half - 1) rest) in
    let s2 : Sched = record s { starving_procs = q } in
    let apart : other ≢ pid = ground (arith, p.items) in
    let split = subst (λ l. IsQueue s.links (s.lrunqs pid) (x ∷ l)) (sym whole) queue in
    let (s3, done, front, back, others, same) =
      hand_over-front pid other half x fs bs s2 apart (sym count) split in
    (
      (some other, s3),
      rw done refl,
      (
        x ∷ fs,
        bs,
        ap (λ l. x ∷ l) whole,
        count ∙ size,
        front,
        back,
        others,
        p.items ∙ ap (λ l. other ∷ contents l) (sym same),
      ),
    )

half_by :
    (e pid half : ℕ) (all : List Ptr) (s : Sched)
    → half ≡ (length all + 1) / 2
    → IsQueue s.links (s.lrunqs pid) all
    → has pid (contents s.starving_procs) ≡ false
    → IsRing e s.starving_procs
    → (r : Option ℕ × Sched) × ((if half == 0
          then some (none, s)
          else (let t = try_pop false false s.starving_procs in
              let s2 = record s { starving_procs = t.1 } in
              elim t.0 [
                | none ↦ some (none, s2)
                | some other ↦ hand_over pid other half s2 >>= (λ s3. some (some other, s3))
              ]))
        ≡ some r)
      × Shared pid all s r.0 r.1
half_by e pid half [] s size queue absent v =
    rw (eq→== half 0 (omega arith)) ((none, s), refl, (queue, λ g ne. refl))
half_by e pid half (x ∷ rest) s size queue absent v =
    let p = try_pop-Pops false false s.starving_procs v in
    let (core, q) = try_pop false false s.starving_procs in
    rw (ne→== half 0 (omega arith)) (hand_to e pid half x rest s core q size queue absent p)

length-ready : (xs : List Ptr) (s : Sched) → length (ready s xs) ≤ length xs + 1
length-ready xs s = elim (Bool-cases (runnable s)) [
  | inl runs ↦ rw runs (omega (arith, length-append xs (s.running ∷ [])))
  | inr rests ↦ rw rests (omega arith)
]

-- Another state before, with the same other queues.
from_before :
    (pid : ℕ) (all : List Ptr) (s s1 : Sched) (o : Option ℕ) (s2 : Sched)
    → ((g : ℕ) → g ≢ pid → s1.lrunqs g ≡ s.lrunqs g)
    → s1.starving_procs ≡ s.starving_procs
    → Shared pid all s1 o s2
    → Shared pid all s o s2
from_before pid all s s1 none s2 others same (queue, kept) =
    (queue, λ g ne. kept g ne ∙ others g ne)
from_before pid all s s1 (some other) s2 others same h = (
  h.0,
  h.1,
  h.2,
  h.3,
  h.4,
  h.5,
  λ g np no. h.6 g np no ∙ others g np,
  ap contents (sym same) ∙ h.7,
)

-- The end of csp_sched_get does not fault where the local queue stands for `xs` and the process
-- that ran is on no queue. That process joins the queue's end if it waits for no child. Then the
-- queue keeps all processes, or a starving core, the first in the queue of these, is given the
-- first half, rounded up, in order, and the queue keeps the others; no other queue changes.
pub found-Shared :
    (e pid : ℕ) (xs : List Ptr) (s : Sched)
    → IsQueue s.links (s.lrunqs pid) xs
    → Leaves xs s
    → has pid (contents s.starving_procs) ≡ false
    → IsRing e s.starving_procs
    → (r : Option ℕ × Sched) × (found (false, false) pid s ≡ some r)
      × Shared pid (ready s xs) s r.0 r.1
unfolding found
found-Shared e pid xs s queue l absent v =
    let (s1, done, q, others, same) = put_back-ready pid xs s queue l in
    let half = ((s1.lrunqs pid).len + 1) % 2 ^ 64 / 2 in
    let size : half ≡ (length (ready s xs) + 1) / 2 =
      omega (arith, q.counted, length-ready xs s, l.room) in
    let (r, after, shared) =
      half_by e pid half (ready s xs) s1 size q (rw (← same) at absent) (rw (← same) at v) in
    (r, rw done after, from_before pid (ready s xs) s s1 r.0 r.1 others same shared)
