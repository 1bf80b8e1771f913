-- ===== src/Analyzer/Callees.antt =====
-- What one function adds to the search through the call graph of plugin/sa.hpp.
use shiyanhui_libcsp.Base.{
  ◌+◌, ◌≤◌, ◌≡◌, refl, sym, ap, ◌∙◌, inl, inr, Bool, true, false, if◌then◌else◌, ◌&&◌, ◌||◌,
  Bool-cases, ◌==◌, List, [], ◌∷◌, ◌++◌, append-nil, append_assoc, arith, eq→==, has, Distinct,
  length,
}
use shiyanhui_libcsp.Analyzer.{
  Name, Graph, Search, discover, callers_of, insert_edge, see_callees, see_wrapped,
}
use shiyanhui_libcsp.Analyzer.Waits.{keys}
use shiyanhui_libcsp.Analyzer.Nodes.{nodes, left, left-lt}
use shiyanhui_libcsp.Analyzer.Edges.{
  CallersAscending, insert_edge-nodes, insert_edge-callers, insert_edge-Distinct,
  insert_edge-CallersAscending,
}

-- The edges of one caller.
abbrev pub insert_edges : (caller : Name) → List Name → Graph → Graph
insert_edges caller [] g = g
insert_edges caller (callee ∷ fs) g = insert_edges caller fs (insert_edge callee caller g)

module _ (caller : Name) where
  pub insert_edges-callers :
      (fs : List Name) (g : Graph) (c f : Name)
      → has f (callers_of c (insert_edges caller fs g))
        ≡ ((has c fs && (caller == f)) || has f (callers_of c g))
  insert_edges-callers [] g c f = refl
  insert_edges-callers (callee ∷ fs) g c f =
      let rest = insert_edges-callers fs (insert_edge callee caller g) c f in
      rest ∙ rw (insert_edge-callers callee caller g c f) (ground arith)

  pub insert_edges-nodes :
      (fs : List Name) (g : Graph) (f : Name)
      → has f (nodes (insert_edges caller fs g)) ≡ true
      → (has f fs || (caller == f) || has f (nodes g)) ≡ true
  insert_edges-nodes [] g f i = ground arith
  insert_edges-nodes (callee ∷ fs) g f i =
      let rest = insert_edges-nodes fs (insert_edge callee caller g) f i in
      let one = insert_edge-nodes callee caller g f in ground (arith, rest, one)

  pub insert_edges-Distinct :
      (fs : List Name) (g : Graph) → Distinct (keys g) → Distinct (keys (insert_edges caller fs g))
  insert_edges-Distinct [] g d = d
  insert_edges-Distinct (callee ∷ fs) g d =
      insert_edges-Distinct fs (insert_edge callee caller g)
        (insert_edge-Distinct callee caller g d)

  pub insert_edges-CallersAscending :
      (fs : List Name) (g : Graph)
      → CallersAscending g
      → CallersAscending (insert_edges caller fs g)
  insert_edges-CallersAscending [] g d = d
  insert_edges-CallersAscending (callee ∷ fs) g d =
      insert_edges-CallersAscending fs (insert_edge callee caller g)
        (insert_edge-CallersAscending callee caller g d)

-- What the functions `fs` do to the queue and the functions seen.
pub record Seen (fs : List Name) (s r : Search) : Type 0 where
  pub seen : (f : Name) → has f r.visited ≡ (has f fs || has f s.visited)
  pub added : List Name
  pub behind : r.queue ≡ s.queue ++ added
  pub asked : (f : Name) → has f added ≡ true → has f fs ≡ true
  pub queued : (f : Name) → has f fs ≡ true → (has f s.visited || has f added) ≡ true
  pub cost :
      (us : List Name)
      → ((f : Name) → has f fs ≡ true → has f us ≡ true)
      → left r.visited us + length added ≤ left s.visited us

pub see_wrapped-Seen : (fs : List Name) (s : Search) → Seen fs s (see_wrapped fs s)
unfolding see_wrapped
see_wrapped-Seen [] s = record {
  seen = λ f. refl;
  added = [];
  behind = sym (append-nil s.queue);
  asked = λ f i. absurd (cc i);
  queued = λ f i. absurd (cc i);
  cost = λ us h. omega arith;
}
see_wrapped-Seen (x ∷ fs) s = elim (Bool-cases (has x s.visited)) [
  | inl old ↦
      let rest = see_wrapped-Seen fs s in
      let was : (f : Name) → (x == f) ≡ true → has f s.visited ≡ true =
        λ f e. (let t : x ≡ f = ground arith in ap (λ y. has y s.visited) (sym t) ∙ old) in
      rw old (record {
        seen = λ f. ground (arith, rest.seen f, was f);
        added = rest.added;
        behind = rest.behind;
        asked = λ f i. ground (arith, rest.asked f);
        queued = λ f i. ground (arith, rest.queued f, was f);
        cost = λ us h. rest.cost us (λ f i. h f (ground arith));
      })
  | inr new ↦
      let next : Search = record s { queue = s.queue ++ x ∷ []; visited = x ∷ s.visited } in
      let rest = see_wrapped-Seen fs next in
      rw new (record {
        seen = λ f. ground (arith, rest.seen f);
        added = x ∷ rest.added;
        behind = rest.behind ∙ append_assoc s.queue (x ∷ []) rest.added;
        asked = λ f i. ground (arith, rest.asked f);
        queued = λ f i. ground (arith, rest.queued f);
        cost = λ us h.
            let less = left-lt s.visited x us (h x (rw (eq→== x x refl) refl)) new in
            let more = rest.cost us (λ f i. h f (ground arith)) in omega (arith, less, more);
      })
]

if-rcg :
    (b : Bool) (s r : Search) (g : Graph)
    → (if b then record s { rcg = g } else record r { rcg = g })
      ≡ record (if b then s else r) { rcg = g }
if-rcg true s r g = refl
if-rcg false s r g = refl

discover-rcg :
    (x : Name) (s : Search) (g : Graph)
    → discover x (record s { rcg = g }) ≡ record (discover x s) { rcg = g }
discover-rcg x s g =
    if-rcg (has x s.visited) s (record s { queue = s.queue ++ x ∷ []; visited = x ∷ s.visited }) g

pub see_wrapped-rcg :
    (fs : List Name) (s : Search) (g : Graph)
    → see_wrapped fs (record s { rcg = g }) ≡ record (see_wrapped fs s) { rcg = g }
unfolding see_wrapped
see_wrapped-rcg [] s g = refl
see_wrapped-rcg (x ∷ fs) s g =
    ap (see_wrapped fs) (discover-rcg x s g) ∙ see_wrapped-rcg fs (discover x s) g

-- The loop over the callees is the loop over the wrapped functions, with the edges.
pub see_callees-see_wrapped :
    (caller : Name) (fs : List Name) (s : Search)
    → see_callees caller fs s ≡ record (see_wrapped fs s) { rcg = insert_edges caller fs s.rcg }
unfolding see_callees see_wrapped
see_callees-see_wrapped caller [] s = refl
see_callees-see_wrapped caller (x ∷ fs) s =
    let g = insert_edge x caller s.rcg in
    ap (see_callees caller fs) (discover-rcg x s g)
    ∙ see_callees-see_wrapped caller fs (record (discover x s) { rcg = g })
    ∙ ap (λ (r : Search). record r { rcg = insert_edges caller fs g })
        (see_wrapped-rcg fs (discover x s) g)
