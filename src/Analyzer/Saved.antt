-- ===== src/Analyzer/Saved.antt =====
-- What `load` of plugin/sa.hpp reads from the files that `save` has written, the lines as records.
use shiyanhui_libcsp.Base.{
  ℕ, ◌≡◌, refl, sym, ap, ◌∙◌, inl, inr, Bool, true, false, ◌&&◌, ◌||◌, not, Bool-cases,
  Option-cases, Option, none, some, List, [], ◌∷◌, ◌==◌, ltb, if◌then◌else◌, arith, has, Distinct,
}
use shiyanhui_libcsp.Namer.{Text, is_generated}
use shiyanhui_libcsp.Analyzer.{Name, unset, is_set, Usage, usage_of, Analyzer, set_usage}
use shiyanhui_libcsp.Analyzer.Files.{
  UsageLine, Flags, save_stack_usage, save_call_graph, load_call_graph, line_usage, load_line,
  load_stack_usage, has_csp_prefix,
}
use shiyanhui_libcsp.Analyzer.Calls.{has_call, load-save_calls, load_calls-usages}

-- The flags for the working directory.
abbrev pub plain : Flags
plain = record { stack_by_user = false; csp_only = false }

abbrev pub names : List (Name × Bool × Usage) → List Name
names [] = []
names ((f, dynamic, su) ∷ us) = f ∷ names us

abbrev pub entry : Name → List (Name × Bool × Usage) → Option Usage
entry f [] = none
entry f ((g, dynamic, su) ∷ us) = if g == f then some su else entry f us

-- What a file keeps of a usage: its frame size, and of a generated wrapper what it reserves.
abbrev pub kept : (Name → Text) → Name → Usage → Usage
kept text f su = record (usage_of unset) {
  frame_size = su.frame_size;
  proc_reserved =
      if is_generated (text f) && (is_set su.proc_reserved && ltb 0 su.proc_reserved)
      then su.proc_reserved
      else unset;
}

module _ (text : Name → Text) where
  -- A number that is written is read again, another one is not set.
  kept_either :
      (b made : Bool) (n : ℕ) (make : ℕ → Usage)
      → (is_set n && ltb 0 n) ≡ b
      → (elim (if b then some n else none) [
        | none ↦ make unset
        | some k ↦ make (if made && (is_set k && ltb 0 k) then k else unset)
      ])
        ≡ make (if made && (is_set n && ltb 0 n) then n else unset)
  kept_either true made n make e = refl
  kept_either false true n make e = rw e refl
  kept_either false false n make e = refl

  -- The line of an entry.
  abbrev line_of : Name → Usage → UsageLine
  line_of f su = record {
    fn = some f;
    frame = some su.frame_size;
    reserved =
        if is_set su.proc_reserved && ltb 0 su.proc_reserved then some su.proc_reserved else none;
  }

  load_line-set :
      (f : Name) (su : Usage) (a : Analyzer)
      → is_set su.frame_size ≡ true
      → load_line text plain (line_of f su) a ≡ set_usage f (kept text f su) a
  unfolding load_line line_usage
  load_line-set f su a s = rw s (
      ap (λ (u : Usage). set_usage f u a)
        (kept_either (is_set su.proc_reserved && ltb 0 su.proc_reserved) (is_generated (text f))
          su.proc_reserved
          (λ n. record (usage_of unset) { frame_size = su.frame_size; proc_reserved = n }) refl))

  load_line-unset :
      (f : Name) (su : Usage) (a : Analyzer)
      → is_set su.frame_size ≡ false
      → load_line text plain (line_of f su) a ≡ a
  unfolding load_line
  load_line-unset f su a s = rw s refl

  -- What a name has behind its line, if it has one.
  abbrev pub read_as : Name → (line old : Option Usage) → Option Usage
  read_as f none old = old
  read_as f (some su) old = if is_set su.frame_size then some (kept text f su) else old

  -- What the usages are behind the lines `us`.
  abbrev pub after : List (Name × Bool × Usage) → Analyzer → Name → Option Usage
  after us a f = read_as f (entry f us) (a.stack_usages f)

  entry-none :
      (f : Name) (us : List (Name × Bool × Usage)) → has f (names us) ≡ false → entry f us ≡ none
  entry-none f [] out = refl
  entry-none f ((g, dynamic, su) ∷ us) out =
      let apart : (g == f) ≡ false = ground arith in rw apart (entry-none f us (ground arith))

  load-save_usages :
      (us : List (Name × Bool × Usage)) (a : Analyzer)
      → Distinct (names us)
      → (f : Name)
      → (load_stack_usage text plain (save_stack_usage us) a).stack_usages f ≡ after us a f
  unfolding load_stack_usage save_stack_usage
  load-save_usages [] a d f = refl
  load-save_usages ((g, dynamic, su) ∷ us) a (new, d) f =
      let lines = save_stack_usage us in
      let apart : (g == f) ≡ true → entry f us ≡ none = λ here.
        (let same : g ≡ f = ground arith in
          entry-none f us (ap (λ x. has x (names us)) (sym same) ∙ new)) in
      elim (Bool-cases (is_set su.frame_size)) [
        | inl s ↦
            let b = set_usage g (kept text g su) a in
            let read =
              ap (λ x. (load_stack_usage text plain lines x).stack_usages f)
                (load_line-set g su a s) in
            let rest = read ∙ load-save_usages us b d f in
            let written : (dynamic && not (is_set su.frame_size)) ≡ false = ground arith in
            rw written (
              rest ∙ elim (Bool-cases (g == f)) [
                | inl here ↦
                    let same : g ≡ f = ground arith in
                    let none_left : after us b f ≡ b.stack_usages f =
                      ap (λ e. read_as f e (b.stack_usages f)) (apart here) in
                    let written_now : b.stack_usages f ≡ some (kept text f su) =
                      rw here (ap (λ x. some (kept text x su)) same) in
                    let first : entry f ((g, dynamic, su) ∷ us) ≡ some su = rw here refl in
                    let wanted : after ((g, dynamic, su) ∷ us) a f ≡ some (kept text f su) =
                      ap (λ e. read_as f e (a.stack_usages f)) first ∙ rw s refl in
                    none_left ∙ written_now ∙ sym wanted
                | inr other ↦ rw other refl
              ])
        | inr s ↦
            let rest = load-save_usages us a d f in
            let gone : after ((g, dynamic, su) ∷ us) a f ≡ after us a f =
              elim (Bool-cases (g == f)) [
                | inl here ↦
                    let first : entry f ((g, dynamic, su) ∷ us) ≡ some su = rw here refl in
                    let unread : after ((g, dynamic, su) ∷ us) a f ≡ a.stack_usages f =
                      ap (λ e. read_as f e (a.stack_usages f)) first ∙ rw s refl in
                    unread ∙ sym (ap (λ e. read_as f e (a.stack_usages f)) (apart here))
                | inr other ↦ rw other refl
              ] in
            elim (Bool-cases (dynamic && not (is_set su.frame_size))) [
              | inl skipped ↦ rw skipped (rest ∙ sym gone)
              | inr written ↦ rw written (
                  ap (λ x. (load_stack_usage text plain lines x).stack_usages f)
                    (load_line-unset g su a s)
                  ∙ rest
                  ∙ sym gone)
            ]
      ]

-- Each kind of file changes one field.
load_line-call_graph :
    (text : Name → Text) (flags : Flags) (line : UsageLine) (a : Analyzer)
    → (load_line text flags line a).call_graph ≡ a.call_graph
unfolding load_line
load_line-call_graph text flags line a = elim (Option-cases line.fn) [
  | inl e ↦ rw e refl
  | inr (fn, e) ↦ elim (Option-cases line.frame) [
    | inl e2 ↦ rw (e, e2) refl
    | inr (frame, e2) ↦
        rw (e, e2)
          (elim (Bool-cases
            (not (is_set frame) || (flags.csp_only && not (has_csp_prefix text fn)))) [
              | inl left_out ↦ rw left_out refl
              | inr taken ↦ rw taken refl
            ])
  ]
]

load_usages-call_graph :
    (text : Name → Text) (flags : Flags) (lines : List UsageLine) (a : Analyzer)
    → (load_stack_usage text flags lines a).call_graph ≡ a.call_graph
unfolding load_stack_usage
load_usages-call_graph text flags [] a = refl
load_usages-call_graph text flags (line ∷ lines) a =
    load_usages-call_graph text flags lines (load_line text flags line a)
    ∙ load_line-call_graph text flags line a

-- Loading what `save` has written, of usages with different names and of any call graph, sets for
-- each name with a frame size its frame size and, for a generated wrapper, what it reserves, leaves
-- the other usages as they were, and adds exactly the calls of the graph.
pub load-save :
    (text : Name → Text) (us : List (Name × Bool × Usage)) (cg : List (Name × List Name))
    (a : Analyzer)
    → Distinct (names us)
    → let r =
        load_call_graph
          (save_call_graph cg)
          (load_stack_usage text plain (save_stack_usage us) a) in
      ((f : Name) → r.stack_usages f ≡ after text us a f)
      × ((f c : Name) → has c (r.call_graph f) ≡ (has_call f c cg || has c (a.call_graph f)))
load-save text us cg a d =
    let b = load_stack_usage text plain (save_stack_usage us) a in
    (
      λ f.
          ap (λ m. m f) (load_calls-usages (save_call_graph cg) b) ∙ load-save_usages text us a d f,
      λ f c.
          load-save_calls cg b f c
          ∙ ap (λ m. has_call f c cg || has c (m f))
              (load_usages-call_graph text plain (save_stack_usage us) a),
    )
