-- ===== src/Analyzer/Reserved.antt =====
-- What plugin/sa.hpp makes of the bytes that a wrapper reserves for its process.
use shiyanhui_libcsp.Base.{
  ℕ, ◌+◌, ◌*◌, ◌%◌, ◌^◌, eq→==, ◌≡◌, refl, ap, ◌∙◌, inl, inr, false, ◌&&◌, ◌||◌, not, Bool-cases,
  Option-cases, Option, none, List, [], ◌∷◌, ◌++◌, ◌==◌, ltb, if◌then◌else◌, arith,
}
use shiyanhui_libcsp.Namer.{Text, is_generated}
use shiyanhui_libcsp.Analyzer.{
  Name, unset, is_set, Usage, usage_of, Analyzer, set_usage, usage_at, leaf_size, leaf_sizes,
  make_entries, get_analyzing_order, leaves, reverse_graph, see_wrapped, Search, order_loop, degree,
  must_get_max_stack_size, visit, visit_all, process_size,
}
use shiyanhui_libcsp.Analyzer.Files.{
  UsageLine, Flags, has_csp_prefix, line_usage, load_line, load_stack_usage, load_all,
}

-- No function that the program's author wrote has a number of reserved bytes.
pub record NoneReserved (text : Name → Text) (a : Analyzer) : Type 0 where
  pub none_of : (f : Name) → is_generated (text f) ≡ false → (usage_at f a).proc_reserved ≡ unset

module _ (text : Name → Text) where
  set_usage-NoneReserved :
      (f : Name) (su : Usage) (a : Analyzer)
      → (is_generated (text f) ≡ false → su.proc_reserved ≡ unset)
      → NoneReserved text a
      → NoneReserved text (set_usage f su a)
  set_usage-NoneReserved f su a own v = record {
    none_of = λ g made. elim (Bool-cases (f == g)) [
      | inl here ↦
          let same : f ≡ g = ground arith in
          rw (usage_at, here) (own (ap (λ x. is_generated (text x)) same ∙ made))
      | inr other ↦ rw (usage_at, other) (v.none_of g made)
    ];
  }

  line_usage-own :
      (flags : Flags) (f : Name) (frame : ℕ) (reserved : Option ℕ)
      → is_generated (text f) ≡ false
      → (line_usage text flags f frame reserved).proc_reserved ≡ unset
  unfolding line_usage
  line_usage-own flags f frame reserved own = elim (Bool-cases flags.stack_by_user) [
    | inl by_user ↦ rw by_user refl
    | inr measured ↦ elim (Option-cases reserved) [
      | inl e ↦ rw (measured, e) refl
      | inr (n, e) ↦ rw (measured, e, own) refl
    ]
  ]

  load_line-NoneReserved :
      (flags : Flags) (line : UsageLine) (a : Analyzer)
      → NoneReserved text a
      → NoneReserved text (load_line text flags line a)
  unfolding load_line
  load_line-NoneReserved flags line a v = elim (Option-cases line.fn) [
    | inl e ↦ rw e v
    | inr (fn, e) ↦ elim (Option-cases line.frame) [
      | inl e2 ↦ rw (e, e2) v
      | inr (frame, e2) ↦
          rw (e, e2)
            (elim (Bool-cases
              (not (is_set frame) || (flags.csp_only && not (has_csp_prefix text fn)))) [
                | inl left_out ↦ rw left_out v
                | inr taken ↦
                    rw taken (
                      set_usage-NoneReserved fn _ a (line_usage-own flags fn frame line.reserved) v)
              ])
    ]
  ]

  load_stack_usage-NoneReserved :
      (flags : Flags) (lines : List UsageLine) (a : Analyzer)
      → NoneReserved text a
      → NoneReserved text (load_stack_usage text flags lines a)
  unfolding load_stack_usage
  load_stack_usage-NoneReserved flags [] a v = v
  load_stack_usage-NoneReserved flags (line ∷ lines) a v =
      load_stack_usage-NoneReserved flags lines (load_line text flags line a)
        (load_line-NoneReserved flags line a v)

  load_all-NoneReserved :
      (files : List (Flags × List UsageLine)) (a : Analyzer)
      → NoneReserved text a
      → NoneReserved text (load_all text files a)
  unfolding load_all
  load_all-NoneReserved [] a v = v
  load_all-NoneReserved ((flags, lines) ∷ files) a v =
      load_all-NoneReserved files (load_stack_usage text flags lines a)
        (load_stack_usage-NoneReserved flags lines a v)

  leaf_size-NoneReserved :
      (f : Name) (a : Analyzer) → NoneReserved text a → NoneReserved text (leaf_size f a)
  unfolding leaf_size
  leaf_size-NoneReserved f a v = elim (Option-cases (a.stack_usages f)) [
    | inl e ↦
        rw (leaf_size, e)
          (set_usage-NoneReserved f (usage_of a.default_stack_size) a (λ own. refl) v)
    | inr (su, e) ↦
        let own : is_generated (text f) ≡ false → su.proc_reserved ≡ unset =
          λ h. (let is = v.none_of f h in rw (usage_at, e) at is) in
        rw (leaf_size, e) (set_usage-NoneReserved f _ a own v)
  ]

  leaf_sizes-NoneReserved :
      (fs : List Name) (a : Analyzer) → NoneReserved text a → NoneReserved text (leaf_sizes fs a)
  unfolding leaf_sizes
  leaf_sizes-NoneReserved [] a v = v
  leaf_sizes-NoneReserved (f ∷ fs) a v =
      leaf_sizes-NoneReserved fs (leaf_size f a) (leaf_size-NoneReserved f a v)

  make_entries-NoneReserved :
      (fs : List Name) (a : Analyzer) → NoneReserved text a → NoneReserved text (make_entries fs a)
  unfolding make_entries
  make_entries-NoneReserved [] a v = v
  make_entries-NoneReserved (f ∷ fs) a v =
      make_entries-NoneReserved fs (set_usage f (usage_at f a) a)
        (set_usage-NoneReserved f (usage_at f a) a (v.none_of f) v)

  order-NoneReserved :
      (fuel : ℕ) (roots wrapped : List Name) (a : Analyzer)
      → NoneReserved text a
      → NoneReserved text (get_analyzing_order fuel roots wrapped a).1
  unfolding get_analyzing_order
  order-NoneReserved fuel roots wrapped a v =
      let start : Search = record { rcg = []; queue = roots; visited = roots } in
      let g = (reverse_graph fuel a (see_wrapped wrapped start)).rcg in
      let order = order_loop fuel g (λ f. degree f g) (leaves g g) ++ wrapped in
      make_entries-NoneReserved order (leaf_sizes (leaves g g) a)
        (leaf_sizes-NoneReserved (leaves g g) a v)

  visit-NoneReserved :
      (f : Name) (a : Analyzer) → NoneReserved text a → NoneReserved text (visit f a)
  unfolding visit
  visit-NoneReserved f a v =
      let su = usage_at f a in
      elim (Bool-cases (is_set su.max_stack_size)) [
        | inl done ↦ rw done (set_usage-NoneReserved f su a (v.none_of f) v)
        | inr todo ↦ elim (Bool-cases (is_set su.stack_by_user)) [
          | inl given ↦ rw (todo, given) (set_usage-NoneReserved f _ a (v.none_of f) v)
          | inr free ↦ rw (todo, free) (set_usage-NoneReserved f _ a (v.none_of f) v)
        ]
      ]

  visit_all-NoneReserved :
      (fs : List Name) (a : Analyzer) → NoneReserved text a → NoneReserved text (visit_all fs a)
  unfolding visit_all
  visit_all-NoneReserved [] a v = v
  visit_all-NoneReserved (f ∷ fs) a v =
      visit_all-NoneReserved fs (visit f a) (visit-NoneReserved f a v)

-- `analyze` up to the sizes of the functions, from the files and the functions that it starts from.
abbrev pub analyzed :
    (Name → Text)
    → (fuel : ℕ) → (roots wrapped : List Name) → List (Flags × List UsageLine)
    → (call_graph : Name → List Name) → (default_stack_size : ℕ) → Analyzer
analyzed text fuel roots wrapped files call_graph default_stack_size =
    let empty : Analyzer = record {
      stack_usages = λ f. none;
      call_graph = call_graph;
      default_stack_size = default_stack_size;
    } in
    let (order, a) = get_analyzing_order fuel roots wrapped (load_all text files empty) in
    visit_all order a

reserved-added :
    (f exit_fn : Name) (a : Analyzer)
    → (usage_at f a).proc_reserved ≡ unset
    → let size = must_get_max_stack_size exit_fn a in
      let max = (usage_at f a).max_stack_size in
      (usage_at f (process_size exit_fn f a)).max_stack_size
      ≡ ((if ltb max size then size else max) + 183) % 2 ^ 64
unfolding process_size
reserved-added f exit_fn a e =
    let size = must_get_max_stack_size exit_fn a in
    let max = (usage_at f a).max_stack_size in
    let sum : (n : ℕ) → (n + (unset + 22 * 2 ^ 3 + 8)) % 2 ^ 64 ≡ (n + 183) % 2 ^ 64 =
      λ n. omega arith in
    rw (usage_at, eq→== f f refl)
      (ap (λ r. ((if ltb max size then size else max) + (r + 22 * 2 ^ 3 + 8)) % 2 ^ 64) e
        ∙ sum (if ltb max size then size else max))

-- Whatever numbers of reserved bytes the files have, the analysis adds 183 bytes to the stack of a
-- process whose function has no generated name, one fewer than its csp_proc_t of 22 words and the
-- call take: no reserved bytes are in the size of a process.
pub process_size-analyzed :
    (text : Name → Text) (fuel : ℕ) (roots wrapped : List Name)
    (files : List (Flags × List UsageLine)) (call_graph : Name → List Name) (default_stack_size : ℕ)
    (exit_fn f : Name)
    → is_generated (text f) ≡ false
    → let a = analyzed text fuel roots wrapped files call_graph default_stack_size in
      let size = must_get_max_stack_size exit_fn a in
      let max = (usage_at f a).max_stack_size in
      (usage_at f (process_size exit_fn f a)).max_stack_size
      ≡ ((if ltb max size then size else max) + 183) % 2 ^ 64
process_size-analyzed text fuel roots wrapped files call_graph default_stack_size exit_fn f own =
    let empty : Analyzer = record {
      stack_usages = λ f. none;
      call_graph = call_graph;
      default_stack_size = default_stack_size;
    } in
    let loaded = load_all-NoneReserved text files empty (record { none_of = λ g h. refl }) in
    let v = visit_all-NoneReserved text _ _ (order-NoneReserved text fuel roots wrapped _ loaded) in
    reserved-added f exit_fn (analyzed text fuel roots wrapped files call_graph default_stack_size)
      (v.none_of f own)
