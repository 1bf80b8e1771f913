-- ===== src/Analyzer/Frames.antt =====
-- What the analysis of plugin/sa.hpp makes of the frame sizes.
use shiyanhui_libcsp.Base.{
  ℕ, ◌+◌, ◌*◌, ◌%◌, ◌^◌, ◌≡◌, refl, ap, ◌∙◌, fun_ext, Option, none, some, Bool-cases, Option-cases,
  inl, inr, List, [], ◌∷◌, ◌==◌, ltb, if◌then◌else◌,
}
use shiyanhui_libcsp.Analyzer.{
  Name, unset, is_set, Usage, Analyzer, set_usage, usage_at, must_get_max_stack_size, largest,
  visit, visit_all, process_size, process_sizes, whole_pages, config_sizes,
}

abbrev pub no_frame : Usage → Usage
no_frame su = record su { frame_size = unset }

abbrev pub without_frame : Option Usage → Option Usage
without_frame none = none
without_frame (some su) = some (no_frame su)

-- The analyzer with every frame size forgotten.
abbrev pub forget : Analyzer → Analyzer
forget a = record a { stack_usages = λ f. without_frame (a.stack_usages f) }

pub set_usage-forget :
    (f : Name) (su : Usage) (a : Analyzer)
    → set_usage f (no_frame su) (forget a) ≡ forget (set_usage f su a)
set_usage-forget f su a =
    ap (λ u. record a { stack_usages = u })
      (fun_ext
        (λ g. elim (Bool-cases (f == g)) [ inl same ↦ rw same refl | inr other ↦ rw other refl ]))

pub usage_at-forget : (f : Name) (a : Analyzer) → usage_at f (forget a) ≡ no_frame (usage_at f a)
usage_at-forget f a = elim (Option-cases (a.stack_usages f)) [
  | inl e ↦ rw (usage_at, e) refl
  | inr (su, e) ↦ rw (usage_at, e) refl
]

must_get-forget :
    (f : Name) (a : Analyzer) → must_get_max_stack_size f (forget a) ≡ must_get_max_stack_size f a
unfolding must_get_max_stack_size
must_get-forget f a = elim (Option-cases (a.stack_usages f)) [
  | inl e ↦ rw (must_get_max_stack_size, e) refl
  | inr (su, e) ↦ rw (must_get_max_stack_size, e) refl
]

largest-forget : (fs : List Name) (m : ℕ) (a : Analyzer) → largest fs m (forget a) ≡ largest fs m a
unfolding largest
largest-forget [] m a = refl
largest-forget (f ∷ fs) m a =
    let next = λ (size : ℕ). if ltb m size then size else m in
    largest-forget fs (next (must_get_max_stack_size f (forget a))) a
    ∙ ap (λ size. largest fs (next size) a) (must_get-forget f a)

visit-forget : (f : Name) (a : Analyzer) → visit f (forget a) ≡ forget (visit f a)
unfolding visit
visit-forget f a =
    let su = usage_at f a in
    rw (usage_at-forget f a, largest-forget (a.call_graph f) 0 a)
      (elim (Bool-cases (is_set su.max_stack_size)) [
        | inl done ↦ rw done (set_usage-forget f su a)
        | inr todo ↦ elim (Bool-cases (is_set su.stack_by_user)) [
          | inl given ↦
              rw (todo, given)
                (set_usage-forget f (record su { max_stack_size = su.stack_by_user }) a)
          | inr free ↦
              rw (todo, free)
                (set_usage-forget f
                  (record su { max_stack_size = (largest (a.call_graph f) 0 a + 8) % 2 ^ 64 }) a)
        ]
      ])

visit_all-forget :
    (fs : List Name) (a : Analyzer) → visit_all fs (forget a) ≡ forget (visit_all fs a)
unfolding visit_all
visit_all-forget [] a = refl
visit_all-forget (f ∷ fs) a = ap (visit_all fs) (visit-forget f a) ∙ visit_all-forget fs (visit f a)

process_size-forget :
    (exit_fn f : Name) (a : Analyzer)
    → process_size exit_fn f (forget a) ≡ forget (process_size exit_fn f a)
unfolding process_size
process_size-forget exit_fn f a =
    let su = usage_at f a in
    let size = must_get_max_stack_size exit_fn a in
    let larger = if ltb su.max_stack_size size then size else su.max_stack_size in
    rw (usage_at-forget f a, must_get-forget exit_fn a)
      (set_usage-forget f
        (record su { max_stack_size = (larger + (su.proc_reserved + 22 * 2 ^ 3 + 8)) % 2 ^ 64 }) a)

process_sizes-forget :
    (fs : List (Name × Name)) (a : Analyzer)
    → process_sizes fs (forget a) ≡ forget (process_sizes fs a)
unfolding process_sizes
process_sizes-forget [] a = refl
process_sizes-forget ((exit_fn, f) ∷ fs) a =
    ap (process_sizes fs) (process_size-forget exit_fn f a)
    ∙ process_sizes-forget fs (process_size exit_fn f a)

config_sizes-forget :
    (fs : List (Name × Name)) (a : Analyzer) → config_sizes fs (forget a) ≡ config_sizes fs a
unfolding config_sizes
config_sizes-forget [] a = refl
config_sizes-forget ((exit_fn, f) ∷ fs) a =
    let first : whole_pages (usage_at f (forget a)).max_stack_size
        ≡ whole_pages (usage_at f a).max_stack_size =
      ap (λ (su : Usage). whole_pages su.max_stack_size) (usage_at-forget f a) in
    ap (λ n. n ∷ config_sizes fs (forget a)) first
    ∙ ap (λ ns. whole_pages (usage_at f a).max_stack_size ∷ ns) (config_sizes-forget fs a)

-- `csp_procs_size` as `analyze` computes it from an order of the functions, for the wrapped
-- functions `procs`, each with the function that it ends in.
abbrev pub sizes_by : (order : List Name) → (procs : List (Name × Name)) → Analyzer → List ℕ
sizes_by order procs a = config_sizes procs (process_sizes procs (visit_all order a))

-- Once get_analyzing_order has given the functions without callees their sizes, the sizes of the
-- processes are the same when all frame sizes are forgotten.
pub sizes_by-forget :
    (order : List Name) (procs : List (Name × Name)) (a : Analyzer)
    → sizes_by order procs (forget a) ≡ sizes_by order procs a
sizes_by-forget order procs a =
    ap (λ b. config_sizes procs (process_sizes procs b)) (visit_all-forget order a)
    ∙ ap (config_sizes procs) (process_sizes-forget procs (visit_all order a))
    ∙ config_sizes-forget procs (process_sizes procs (visit_all order a))
