-- ===== src/Sched/Exit.antt =====
-- csp_core_proc_exit of src/core.c: the children of a waiting process end.
use shiyanhui_libcsp.Base.{
  ℕ, suc, ◌+◌, ◌-◌, ◌%◌, ◌^◌, ◌<◌, ◌≡◌, ◌≢◌, refl, sym, ap, ◌∙◌, arith, false, Option, some, List,
  [], ◌∷◌, update, length, subst, subst₂, has, eq→==, ne→==, ◌>>=◌,
}
use shiyanhui_libcsp.Runq.{Ptr, null}
use shiyanhui_libcsp.Runq.Chain.{IsQueue, Detached}
use shiyanhui_libcsp.Runq.Refine.{push_front-cons}
use shiyanhui_libcsp.Sched.{Sched, proc_exit}

-- `n` processes with the same parent end, on the cores that `pids` names.
abbrev pub exits : Ptr → List ℕ → Sched → Option Sched
exits parent [] s = some s
exits parent (pid ∷ pids) s = proc_exit pid parent s >>= (λ s1. exits parent pids s1)

-- A child that ends and is not the last.
earlier :
    (pid : ℕ) (parent : Ptr) (n : ℕ) (s : Sched)
    → parent ≢ null
    → s.nchild parent ≡ suc (suc n)
    → suc (suc n) < 2 ^ 64
    → (s1 : Sched) × (proc_exit pid parent s ≡ some s1)
      × (s1.nchild parent ≡ suc n)
      × (s1.lrunqs ≡ s.lrunqs)
      × (s1.links ≡ s.links)
unfolding proc_exit
earlier pid parent n s real count small =
    let s1 : Sched = record s {
      nchild = update s.nchild parent ((s.nchild parent + 2 ^ 64 - 1) % 2 ^ 64);
      running = null;
    } in
    (
      s1,
      rw (ne→== parent null real, ne→== (s.nchild parent) 1 (omega arith)) refl,
      rw (eq→== parent parent refl) (omega arith),
      refl,
      refl,
    )

-- The last child that ends.
last :
    (pid : ℕ) (parent : Ptr) (xs : List Ptr) (s : Sched)
    → s.nchild parent ≡ 1
    → IsQueue s.links (s.lrunqs pid) xs
    → Detached s.links parent
    → has parent xs ≡ false
    → suc (length xs) < 2 ^ 64
    → (s1 : Sched) × (proc_exit pid parent s ≡ some s1)
      × (s1.nchild parent ≡ 0)
      × IsQueue s1.links (s1.lrunqs pid) (parent ∷ xs)
      × ((g : ℕ) → g ≢ pid → s1.lrunqs g ≡ s.lrunqs g)
unfolding proc_exit
last pid parent xs s count queue alone new room =
    let (r, done, q, same) =
      push_front-cons s.links (s.lrunqs pid) xs parent queue alone new room in
    let s1 : Sched = record s {
      nchild = update s.nchild parent ((s.nchild parent + 2 ^ 64 - 1) % 2 ^ 64);
      lrunqs = update s.lrunqs pid r.0;
      links = r.1;
      running = null;
    } in
    let here : s1.lrunqs pid ≡ r.0 = rw (eq→== pid pid refl) refl in
    (
      s1,
      rw (ne→== parent null alone.ne_null, eq→== (s.nchild parent) 1 count, done) refl,
      rw (eq→== parent parent refl) (omega arith),
      subst (λ l. IsQueue r.1 l (parent ∷ xs)) (sym here) q,
      λ g ne. rw (ne→== pid g (λ t. ne (sym t))) refl,
    )

-- A process that waits for as many children as `pids` and `pid` name cores is put on no queue
-- while the children end on the cores `pids`; when the last one ends, on core `pid`, it comes to
-- the front of that core's queue, with no children left to wait for, and no other queue changes.
pub exits-parent :
    (parent : Ptr) (pids : List ℕ) (pid : ℕ) (xs : List Ptr) (s : Sched)
    → s.nchild parent ≡ suc (length pids)
    → suc (length pids) < 2 ^ 64
    → IsQueue s.links (s.lrunqs pid) xs
    → Detached s.links parent
    → has parent xs ≡ false
    → suc (length xs) < 2 ^ 64
    → (s1 : Sched) × (s2 : Sched) × (exits parent pids s ≡ some s1)
      × (s1.lrunqs ≡ s.lrunqs)
      × (proc_exit pid parent s1 ≡ some s2)
      × (s2.nchild parent ≡ 0)
      × IsQueue s2.links (s2.lrunqs pid) (parent ∷ xs)
      × ((g : ℕ) → g ≢ pid → s2.lrunqs g ≡ s.lrunqs g)
exits-parent parent [] pid xs s count small queue alone new room =
    let (s2, done, zero_left, q, others) = last pid parent xs s count queue alone new room in
    (s, s2, refl, refl, done, zero_left, q, others)
exits-parent parent (p ∷ pids) pid xs s count small queue alone new room =
    let (s1, done, left, lrunqs, links) =
      earlier p parent (length pids) s alone.ne_null count small in
    let queue1 = subst₂ (λ l h. IsQueue h (l pid) xs) (sym lrunqs) (sym links) queue in
    let alone1 = subst (λ h. Detached h parent) (sym links) alone in
    let (s2, s3, rest, same, final, zero_left, q, others) =
      exits-parent parent pids pid xs s1 left (omega arith) queue1 alone1 new room in
    (
      s2,
      s3,
      rw done rest,
      same ∙ lrunqs,
      final,
      zero_left,
      q,
      λ g ne. others g ne ∙ ap (λ l. l g) lrunqs,
    )
