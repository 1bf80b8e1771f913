-- ===== src/Analyzer/Files.antt =====
-- The files of plugin/sa.hpp, line by line. What the stream operators make of a line is a record of
-- options, which Analyzer/Lines reads from the text; `text` gives the letters of a name. The type of a stack usage is only here: whether it is
-- DYNAMIC.
use shiyanhui_libcsp.Base.{
  ℕ, Bool, false, ◌&&◌, ◌||◌, not, Option, none, some, List, [], ◌∷◌, ◌==◌, ltb, if◌then◌else◌,
  update,
}
use shiyanhui_libcsp.Namer.{Text, is_generated, parse, eq_text}
use shiyanhui_libcsp.Base.{take, length}
use shiyanhui_libcsp.Analyzer.{
  Name, unset, is_set, Usage, usage_of, Analyzer, set_usage, insert_name,
}

-- A line of a .sf file, also of the file that a user gives: what `ss >> fn`, `ss >> frame` and
-- `ss >> reserved` read, where they do.
pub record UsageLine : Type 0 where
  pub fn : Option Name
  pub frame : Option ℕ
  pub reserved : Option ℕ

-- `flags`.
pub record Flags : Type 0 where
  pub stack_by_user : Bool
  pub csp_only : Bool

-- `csp_prefix`.
abbrev pub csp_prefix : Text
csp_prefix = 99 ∷ 115 ∷ 112 ∷ 95 ∷ []

-- `add_stack_usage`.
abbrev pub add_stack_usage : Name → Usage → Analyzer → Analyzer
add_stack_usage fn_name su a = set_usage fn_name su a

-- `add_call`.
unfoldable pub add_call : (caller callee : Name) → Analyzer → Analyzer
add_call caller callee a = record a {
  call_graph = update a.call_graph caller (insert_name callee (a.call_graph caller));
}

-- `set_callees`, of a set.
abbrev pub set_callees : (caller : Name) → List Name → Analyzer → Analyzer
set_callees caller callees a = record a { call_graph = update a.call_graph caller callees }

-- `save_stack_usage` for the entries in the order of the map, each with whether it is DYNAMIC.
unfoldable pub save_stack_usage : List (Name × Bool × Usage) → List UsageLine
save_stack_usage [] = []
save_stack_usage ((f, dynamic, su) ∷ us) =
    let rest = save_stack_usage us in
    let line : UsageLine = record {
      fn = some f;
      frame = some su.frame_size;
      reserved =
          if is_set su.proc_reserved && ltb 0 su.proc_reserved then some su.proc_reserved else none;
    } in
    if dynamic && not (is_set su.frame_size) then rest else line ∷ rest

-- `save_call_graph`: the words of each line.
unfoldable pub save_call_graph : List (Name × List Name) → List (List Name)
save_call_graph [] = []
save_call_graph ((caller, []) ∷ cg) = save_call_graph cg
save_call_graph ((caller, callee ∷ fs) ∷ cg) = (caller ∷ callee ∷ fs) ∷ save_call_graph cg

-- The loop over the words of a line behind the caller.
unfoldable pub add_calls : (caller : Name) → List Name → Analyzer → Analyzer
unfolding add_call
add_calls caller [] a = a
add_calls caller (callee ∷ fs) a = add_calls caller fs (add_call caller callee a)

-- `load_call_graph_from_file`.
unfoldable pub load_call_graph : List (List Name) → Analyzer → Analyzer
unfolding add_calls
load_call_graph [] a = a
load_call_graph ([] ∷ lines) a = load_call_graph lines a
load_call_graph ((caller ∷ fs) ∷ lines) a = load_call_graph lines (add_calls caller fs a)

module _ (text : Name → Text) where
  abbrev pub has_csp_prefix : Name → Bool
  has_csp_prefix fn = eq_text (take (length csp_prefix) (text fn)) csp_prefix

  -- The usage that a line gives.
  unfoldable pub line_usage : Flags → (fn : Name) → (frame : ℕ) → (reserved : Option ℕ) → Usage
  line_usage flags fn frame reserved =
      if flags.stack_by_user
      then record (usage_of unset) { stack_by_user = frame }
      else elim reserved [
        | none ↦ record (usage_of unset) { frame_size = frame }
        | some n ↦ record (usage_of unset) {
          frame_size = frame;
          proc_reserved = if is_generated (text fn) && (is_set n && ltb 0 n) then n else unset;
        }
      ]

  -- The body of the loop of `load_stack_usage_from_file`.
  unfoldable pub load_line : Flags → UsageLine → Analyzer → Analyzer
  unfolding line_usage
  load_line flags line a = elim line.fn [
    | none ↦ a
    | some fn ↦ elim line.frame [
      | none ↦ a
      | some frame ↦
          if not (is_set frame) || (flags.csp_only && not (has_csp_prefix fn))
          then a
          else add_stack_usage fn (line_usage flags fn frame line.reserved) a
    ]
  ]

  unfoldable pub load_stack_usage : Flags → List UsageLine → Analyzer → Analyzer
  unfolding load_line
  load_stack_usage flags [] a = a
  load_stack_usage flags (line ∷ lines) a = load_stack_usage flags lines (load_line flags line a)

  -- Several files, as `load` and `load_from_dir` take them.
  unfoldable pub load_all : List (Flags × List UsageLine) → Analyzer → Analyzer
  unfolding load_stack_usage
  load_all [] a = a
  load_all ((flags, lines) ∷ files) a = load_all files (load_stack_usage flags lines a)

abbrev pub has_id : ℕ → List (ℕ × Text) → Bool
has_id i [] = false
has_id i ((j, name) ∷ ws) = (j == i) || has_id i ws

-- `collect_wrapper_funcs` for the names in the order of the map: the wrapped functions with their
-- ids, the latest first. `none` stands for the exit where two have one id.
unfoldable pub collect_wrapper_funcs :
    List Text → (wrapper_funcs : List (ℕ × Text)) → Option (List (ℕ × Text))
collect_wrapper_funcs [] ws = some ws
collect_wrapper_funcs (name ∷ names) ws = elim (parse name) [
  | none ↦ collect_wrapper_funcs names ws
  | some entity ↦
      if has_id entity.id ws
      then none
      else collect_wrapper_funcs names ((entity.id, entity.name) ∷ ws)
]
