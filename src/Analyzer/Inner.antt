-- ===== src/Analyzer/Inner.antt =====
-- What the analysis of plugin/sa.hpp makes of the frame sizes of functions that call others.
use shiyanhui_libcsp.Base.{
  ℕ, zero, suc, ◌+◌, ◌≤◌, ◌≡◌, refl, sym, ap, ◌∙◌, fun_ext, Option, none, some, true, Bool-cases,
  Option-cases, inl, inr, List, [], ◌∷◌, ◌++◌, ◌==◌, arith, eq→==, has, has-append, length,
  length-append, update, if◌then◌else◌,
}
use shiyanhui_libcsp.Analyzer.{
  Name, Usage, usage_of, is_set, Analyzer, Search, set_usage, usage_at, see_callees, see_wrapped,
  reverse_graph, degree, leaves, leaf_size, leaf_sizes, order_loop, make_entries,
  get_analyzing_order,
}
use shiyanhui_libcsp.Analyzer.Waits.{waits-degree, waits-zero}
use shiyanhui_libcsp.Analyzer.Order.{leaves-has}
use shiyanhui_libcsp.Analyzer.Nodes.{keys-nodes, left-length}
use shiyanhui_libcsp.Analyzer.Callees.{see_wrapped-Seen}
use shiyanhui_libcsp.Analyzer.Explore.{reverse_graph-Explored, see_wrapped-Explored}
use shiyanhui_libcsp.Analyzer.Frames.{
  without_frame, forget, set_usage-forget, usage_at-forget, sizes_by, sizes_by-forget,
}

-- The analyzer with the frame size of every function that calls others forgotten.
abbrev pub forget_callers : Analyzer → Analyzer
forget_callers a = record a {
  stack_usages = λ f. elim (a.call_graph f) [
    | [] ↦ a.stack_usages f
    | c ∷ cs ↦ without_frame (a.stack_usages f)
  ];
}

abbrev pub wrapped_of : List (Name × Name) → List Name
wrapped_of [] = []
wrapped_of ((exit_fn, f) ∷ procs) = f ∷ wrapped_of procs

-- `csp_procs_size` as `analyze` and `gen_config` compute it, for the wrapped functions `procs`, each
-- with the function that it ends in.
abbrev pub sizes_of : (fuel : ℕ) → (roots : List Name) → List (Name × Name) → Analyzer → List ℕ
sizes_of fuel roots procs a =
    let r = get_analyzing_order fuel roots (wrapped_of procs) a in sizes_by r.0 procs r.1

-- The search reads no usage.
reverse_graph-forget :
    (fuel : ℕ) (a : Analyzer) (s : Search)
    → reverse_graph fuel (forget_callers a) s ≡ reverse_graph fuel a s
unfolding reverse_graph
reverse_graph-forget zero a s = refl
reverse_graph-forget (suc fuel) a s =
    ap
      (λ (go : Search → Search). elim s.queue [
        | [] ↦ s
        | caller ∷ rest ↦ go (see_callees caller (a.call_graph caller) (record s { queue = rest }))
      ])
      (fun_ext (reverse_graph-forget fuel a))

-- What leaf_size makes of the usage that it finds.
abbrev leaf_usage : (default_stack_size : ℕ) → Option Usage → Usage
leaf_usage default_stack_size none = usage_of default_stack_size
leaf_usage default_stack_size (some su) = record su {
  max_stack_size = if is_set su.stack_by_user then su.stack_by_user else su.frame_size;
}

leaf_size-usage :
    (f : Name) (a : Analyzer)
    → leaf_size f a ≡ set_usage f (leaf_usage a.default_stack_size (a.stack_usages f)) a
unfolding leaf_size
leaf_size-usage f a = elim (Option-cases (a.stack_usages f)) [
  | inl e ↦ rw (leaf_size, e) refl
  | inr (su, e) ↦ rw (leaf_size, e) refl
]

-- Two tables of usages that differ at most in frame sizes, and not for the functions `zs`.
leaf_sizes-forget :
    (zs : List Name) (a : Analyzer) (u v : Name → Option Usage)
    → ((f : Name) → without_frame (u f) ≡ without_frame (v f))
    → ((f : Name) → has f zs ≡ true → u f ≡ v f)
    → forget (leaf_sizes zs (record a { stack_usages = u }))
      ≡ forget (leaf_sizes zs (record a { stack_usages = v }))
unfolding leaf_sizes leaf_size
leaf_sizes-forget [] a u v alike same = ap (λ w. record a { stack_usages = w }) (fun_ext alike)
leaf_sizes-forget (f ∷ zs) a u v alike same =
    let found = leaf_usage a.default_stack_size in
    let here : u f ≡ v f = same f (rw (eq→== f f refl) refl) in
    let first : (w : Name → Option Usage)
        → leaf_size f (record a { stack_usages = w })
          ≡ record a { stack_usages = update w f (some (found (w f))) } =
      λ w. leaf_size-usage f (record a { stack_usages = w }) in
    ap (λ b. forget (leaf_sizes zs b)) (first u)
    ∙ ap (λ x. forget (leaf_sizes zs (record a { stack_usages = update u f (some (found x)) })))
        here
    ∙ leaf_sizes-forget zs a (update u f (some (found (v f)))) (update v f (some (found (v f))))
        (λ g. elim (Bool-cases (f == g)) [ inl t ↦ rw t refl | inr t ↦ rw t (alike g) ])
        (λ g i. elim (Bool-cases (f == g)) [ inl t ↦ rw t refl | inr t ↦ rw t (same g (rw t i)) ])
    ∙ ap (λ b. forget (leaf_sizes zs b)) (sym (first v))

make_entries-forget :
    (fs : List Name) (a : Analyzer) → make_entries fs (forget a) ≡ forget (make_entries fs a)
unfolding make_entries
make_entries-forget [] a = refl
make_entries-forget (f ∷ fs) a =
    ap (make_entries fs) (
      ap (λ su. set_usage f su (forget a)) (usage_at-forget f a)
      ∙ set_usage-forget f (usage_at f a) a)
    ∙ make_entries-forget fs (set_usage f (usage_at f a) a)

callers-alike :
    (a : Analyzer) (f : Name)
    → without_frame ((forget_callers a).stack_usages f) ≡ without_frame (a.stack_usages f)
callers-alike a f =
    elim (a.call_graph f)
      as (λ cs.
        without_frame
          (elim cs [ [] ↦ a.stack_usages f | d ∷ ds ↦ without_frame (a.stack_usages f) ])
        ≡ without_frame (a.stack_usages f)) [
          | [] ↦ refl
          | c ∷ cs ↦ elim (Option-cases (a.stack_usages f)) [
            | inl e ↦ rw e refl
            | inr (su, e) ↦ rw e refl
          ]
        ]

-- A function without callees keeps its usage.
callers-same :
    (a : Analyzer) (f : Name)
    → ((c : Name) → ¬ (has c (a.call_graph f) ≡ true))
    → (forget_callers a).stack_usages f ≡ a.stack_usages f
callers-same a f alone =
    elim (a.call_graph f)
        as (λ cs.
          ((c : Name) → ¬ (has c cs ≡ true))
          → elim cs [ [] ↦ a.stack_usages f | d ∷ ds ↦ without_frame (a.stack_usages f) ]
            ≡ a.stack_usages f) [
              | [] ↦ λ h. refl
              | c ∷ cs ↦ λ h. absurd (h c (rw (eq→== c c refl) refl))
            ]
      alone

-- The order and the entries, for a search that has the leaves `zs`, however it came to the graph.
sizes_by-leaves :
    (zs order : List Name) (procs : List (Name × Name)) (a : Analyzer)
    → ((f c : Name) → has f zs ≡ true → ¬ (has c (a.call_graph f) ≡ true))
    → sizes_by order procs (make_entries order (leaf_sizes zs (forget_callers a)))
      ≡ sizes_by order procs (make_entries order (leaf_sizes zs a))
sizes_by-leaves zs order procs a alone =
    let b = forget_callers a in
    let after = λ (x : Analyzer). make_entries order (leaf_sizes zs x) in
    let alike =
      leaf_sizes-forget zs a b.stack_usages a.stack_usages (callers-alike a)
        (λ f i. callers-same a f (λ c. alone f c i)) in
    sym (sizes_by-forget order procs (after b))
    ∙ ap (sizes_by order procs) (
        sym (make_entries-forget order (leaf_sizes zs b))
        ∙ ap (make_entries order) alike
        ∙ make_entries-forget order (leaf_sizes zs a))
    ∙ sizes_by-forget order procs (after a)

-- Where the functions that a process can come to are on a list of fewer than 2^64 and there is fuel
-- for that list and the functions that a process ends in, the sizes that analyze computes for the
-- processes are the same when the frame size of every function that calls others is forgotten.
pub sizes_of-forget_callers :
    (us : List Name) (fuel : ℕ) (roots : List Name) (procs : List (Name × Name)) (a : Analyzer)
    → ((f : Name) → has f (wrapped_of procs ++ roots) ≡ true → has f us ≡ true)
    → ((f c : Name) → has f us ≡ true → has c (a.call_graph f) ≡ true → has c us ≡ true)
    → length roots + length us ≤ fuel
    → sizes_of fuel roots procs (forget_callers a) ≡ sizes_of fuel roots procs a
unfolding get_analyzing_order
sizes_of-forget_callers us fuel roots procs a given closed enough =
    let wrapped = wrapped_of procs in
    let starts = wrapped ++ roots in
    let begin : Search = record { rcg = []; queue = roots; visited = roots } in
    let s = see_wrapped wrapped begin in
    let n = see_wrapped-Seen wrapped begin in
    let fits = n.cost us (λ f i. given f (rw (has-append f wrapped roots) (ground arith))) in
    let (x, ended) =
      reverse_graph-Explored a starts us given closed fuel s s.queue refl
        (see_wrapped-Explored a roots wrapped)
        (omega
          (arith, ap length n.behind, length-append roots n.added, fits, left-length roots us)) in
    let g = (reverse_graph fuel a s).rcg in
    let order = order_loop fuel g (λ f. degree f g) (leaves g g) ++ wrapped in
    let alone : (f c : Name) → has f (leaves g g) ≡ true → ¬ (has c (a.call_graph f) ≡ true) =
      λ f c i call.
        let (zero_of, key) = leaves-has g g f i in
        let seen = x.known f (keys-nodes g f key) in
        let edge = x.complete f seen (ap (has f) ended) c call in
        absurd (cc (waits-zero g [] f c (waits-degree g f ∙ zero_of) edge)) in
    ap
      (λ (t : Search).
        let zs = leaves t.rcg t.rcg in
        let fs = order_loop fuel t.rcg (λ f. degree f t.rcg) zs ++ wrapped in
        sizes_by fs procs (make_entries fs (leaf_sizes zs (forget_callers a))))
      (reverse_graph-forget fuel a s)
    ∙ sizes_by-leaves (leaves g g) order procs a alone
