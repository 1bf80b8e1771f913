-- ===== src/Analyzer/Explore.antt =====
-- The search through the call graph of plugin/sa.hpp: it sees each function that a process can
-- call, and reverses each call between them.
use shiyanhui_libcsp.Base.{
  ℕ, zero, suc, ◌+◌, ◌≤◌, ◌≡◌, refl, sym, ap, subst, ◌∙◌, inl, inr, true, false, ◌&&◌, ◌||◌,
  Bool-cases, ◌==◌, List, [], ◌∷◌, ◌++◌, arith, eq→==, has, has-append, Distinct, length,
  length-append,
}
use shiyanhui_libcsp.Analyzer.{
  Name, Analyzer, Search, callers_of, see_callees, see_wrapped, reverse_graph,
}
use shiyanhui_libcsp.Analyzer.Waits.{keys}
use shiyanhui_libcsp.Analyzer.Nodes.{nodes, left}
use shiyanhui_libcsp.Analyzer.Edges.{CallersAscending}
use shiyanhui_libcsp.Analyzer.Callees.{
  insert_edges, insert_edges-callers, insert_edges-nodes, insert_edges-Distinct,
  insert_edges-CallersAscending, Seen, see_wrapped-rcg, see_wrapped-Seen, see_callees-see_wrapped,
}

-- A function that a process can come to from the functions `starts`.
pub data Reached (a : Analyzer) (starts : List Name) : Name → Type 0 where
  starts_at : (f : Name) → has f starts ≡ true → Reached a starts f
  calls :
      {f : Name} (c : Name)
      → Reached a starts f
      → has c (a.call_graph f) ≡ true
      → Reached a starts c

-- The search between two rounds: the graph has the calls of the functions that are seen and no
-- longer in the queue.
pub record Explored (a : Analyzer) (starts : List Name) (s : Search) : Type 0 where
  pub keys_once : Distinct (keys s.rcg)
  pub ascending : CallersAscending s.rcg
  pub sound : (c f : Name) → has f (callers_of c s.rcg) ≡ true → has c (a.call_graph f) ≡ true
  pub known : (f : Name) → has f (nodes s.rcg) ≡ true → has f s.visited ≡ true
  pub queued : (f : Name) → has f s.queue ≡ true → has f s.visited ≡ true
  pub complete :
      (f : Name)
      → has f s.visited ≡ true
      → has f s.queue ≡ false
      → (c : Name) → has c (a.call_graph f) ≡ true
      → has f (callers_of c s.rcg) ≡ true
  pub reached : (f : Name) → has f s.visited ≡ true → Reached a starts f
  pub begun : (f : Name) → has f starts ≡ true → has f s.visited ≡ true

-- A round: `r` is the search behind the callees of `caller`.
Explored-Seen :
    (a : Analyzer) (starts : List Name) (caller : Name) (rest : List Name) (s r : Search)
    → s.queue ≡ caller ∷ rest
    → Explored a starts s
    → Seen (a.call_graph caller) (record s { queue = rest }) r
    → Explored a starts (record r { rcg = insert_edges caller (a.call_graph caller) s.rcg })
Explored-Seen a starts caller rest s r q x n =
    let fs = a.call_graph caller in
    let first : has caller s.queue ≡ true =
      ap (has caller) q ∙ rw (eq→== caller caller refl) refl in
    let seen_caller : has caller s.visited ≡ true = x.queued caller first in
    let is_caller : (f : Name) → (caller == f) ≡ true → caller ≡ f = λ f e. ground arith in
    let stays : (f : Name) → has f s.visited ≡ true → has f r.visited ≡ true =
      λ f i. ground (arith, n.seen f) in
    let in_queue : (f : Name) → has f s.queue ≡ ((caller == f) || has f rest) = λ f. ap (has f) q in
    let after : (f : Name) → has f r.queue ≡ (has f rest || has f n.added) =
      λ f. ap (has f) n.behind ∙ has-append f rest n.added in
    record {
      keys_once = insert_edges-Distinct caller fs s.rcg x.keys_once;
      ascending = insert_edges-CallersAscending caller fs s.rcg x.ascending;
      sound = λ c f i.
          let edge = sym (insert_edges-callers caller fs s.rcg c f) ∙ i in
          elim (Bool-cases (has c fs && (caller == f))) [
            | inl here ↦
                let direct : has c fs ≡ true = ground arith in
                ap (λ y. has c (a.call_graph y)) (sym (is_caller f (ground arith))) ∙ direct
            | inr before ↦ x.sound c f (ground arith)
          ];
      known = λ f i.
          let from = insert_edges-nodes caller fs s.rcg f i in
          elim (Bool-cases (caller == f)) [
            | inl here ↦ stays f (ap (λ y. has y s.visited) (sym (is_caller f here)) ∙ seen_caller)
            | inr other ↦ ground (arith, n.seen f, x.known f)
          ];
      queued = λ f i. ground (arith, after f, in_queue f, x.queued f, n.asked f, n.seen f);
      complete = λ f i out c call.
          let edge = insert_edges-callers caller fs s.rcg c f in
          elim (Bool-cases (caller == f)) [
            | inl here ↦
                let direct : has c fs ≡ true =
                  ap (λ y. has c (a.call_graph y)) (is_caller f here) ∙ call in
                edge ∙ rw (direct, here) refl
            | inr other ↦
                let before : has f s.visited ≡ true =
                  ground (arith, n.seen f, n.queued f, after f) in
                let gone : has f s.queue ≡ false = ground (arith, in_queue f, after f) in
                edge ∙ rw (x.complete f before gone c call) (ground arith)
          ];
      reached = λ f i. elim (Bool-cases (has f s.visited)) [
        | inl before ↦ x.reached f before
        | inr new ↦ calls f (x.reached caller seen_caller) (ground (arith, n.seen f))
      ];
      begun = λ f i. stays f (x.begun f i);
    }

reverse_graph-nil :
    (fuel : ℕ) (a : Analyzer) (s : Search) → s.queue ≡ [] → reverse_graph fuel a s ≡ s
unfolding reverse_graph
reverse_graph-nil zero a s q = refl
reverse_graph-nil (suc fuel) a s q =
    ap
      (λ (queue : List Name). elim queue [
        | [] ↦ s
        | caller ∷ rest ↦
            reverse_graph fuel a
              (see_callees caller (a.call_graph caller) (record s { queue = rest }))
      ])
      q

reverse_graph-cons :
    (fuel : ℕ) (a : Analyzer) (s : Search) (caller : Name) (rest : List Name)
    → s.queue ≡ caller ∷ rest
    → reverse_graph (suc fuel) a s
      ≡ reverse_graph fuel a (see_callees caller (a.call_graph caller) (record s { queue = rest }))
unfolding reverse_graph
reverse_graph-cons fuel a s caller rest q = rw (reverse_graph, q) refl

module _ (a : Analyzer) (starts us : List Name)
    (all_starts : (f : Name) → has f starts ≡ true → has f us ≡ true)
    (closed : (f c : Name)
      → has f us ≡ true
      → has c (a.call_graph f) ≡ true
      → has c us ≡ true) where
  pub Reached-has : {f : Name} → Reached a starts f → has f us ≡ true
  Reached-has (starts_at f i) = all_starts f i
  Reached-has (calls {f} c r i) = closed f c (Reached-has r) i

  -- With fuel for the queue and the functions that are not seen the search ends.
  pub reverse_graph-Explored :
      (fuel : ℕ) (s : Search) (queue : List Name)
      → s.queue ≡ queue
      → Explored a starts s
      → length queue + left s.visited us ≤ fuel
      → Explored a starts (reverse_graph fuel a s) × ((reverse_graph fuel a s).queue ≡ [])
  reverse_graph-Explored fuel s [] q x enough =
      subst (λ r. Explored a starts r × (r.queue ≡ [])) (sym (reverse_graph-nil fuel a s q)) (x, q)
  reverse_graph-Explored zero s (caller ∷ rest) q x enough = absurd (omega arith)
  reverse_graph-Explored (suc fuel) s (caller ∷ rest) q x enough =
      let fs = a.call_graph caller in
      let first : has caller s.queue ≡ true =
        ap (has caller) q ∙ rw (eq→== caller caller refl) refl in
      let here = Reached-has (x.reached caller (x.queued caller first)) in
      let n = see_wrapped-Seen fs (record s { queue = rest }) in
      let round = see_callees-see_wrapped caller fs (record s { queue = rest }) in
      let next : Search = record (see_wrapped fs (record s { queue = rest })) {
        rcg = insert_edges caller fs s.rcg;
      } in
      subst (λ r. Explored a starts r × (r.queue ≡ []))
        (sym (reverse_graph-cons fuel a s caller rest q ∙ ap (reverse_graph fuel a) round))
        (reverse_graph-Explored fuel next (rest ++ n.added) n.behind
          (Explored-Seen a starts caller rest s _ q x n)
          (omega (arith, length-append rest n.added, n.cost us (λ c i. closed caller c here i))))

-- The search at its start: the functions that a process ends in, then the wrapped ones.
pub see_wrapped-Explored :
    (a : Analyzer) (roots wrapped : List Name)
    → Explored a
        (wrapped ++ roots)
        (see_wrapped wrapped (record { rcg = []; queue = roots; visited = roots }))
unfolding callers_of
see_wrapped-Explored a roots wrapped =
    let start : Search = record { rcg = []; queue = roots; visited = roots } in
    let n = see_wrapped-Seen wrapped start in
    let r = see_wrapped wrapped start in
    let given : (f : Name) → has f r.visited ≡ has f (wrapped ++ roots) =
      λ f. n.seen f ∙ sym (has-append f wrapped roots) in
    let waits_in : (f : Name) → has f r.queue ≡ (has f roots || has f n.added) =
      λ f. ap (has f) n.behind ∙ has-append f roots n.added in
    let no_edges : r.rcg ≡ [] = ap (λ (t : Search). t.rcg) (see_wrapped-rcg wrapped start []) in
    let all_queued : (f : Name) → has f r.visited ≡ true → has f r.queue ≡ true =
      λ f i. ground (arith, n.seen f, n.queued f, waits_in f) in
    record {
      keys_once = subst (λ g. Distinct (keys g)) (sym no_edges) tt;
      ascending = subst CallersAscending (sym no_edges) tt;
      sound = λ c f i. absurd (cc (sym (ap (λ g. has f (callers_of c g)) no_edges) ∙ i));
      known = λ f i. absurd (cc (sym (ap (λ g. has f (nodes g)) no_edges) ∙ i));
      queued = λ f i. ground (arith, n.seen f, n.asked f, waits_in f);
      complete = λ f i out c call. absurd (cc (all_queued f i, out));
      reached = λ f i. starts_at f (sym (given f) ∙ i);
      begun = λ f i. given f ∙ i;
    }
