-- ===== src/Analyzer/Tests.antt =====
-- A program of one process: function 10 has a frame of 4096 bytes and calls 11, of 16 bytes; 1 is
-- csp_core_proc_exit and 2 is exit.
use shiyanhui_libcsp.Base.{
  ℕ, Bool, arith, sym, ◌-◌, ◌≡◌, ◌⊎◌, inl, inr, Bool-cases, refl, List, [], ◌∷◌, ◌++◌, true, none,
  some, ◌==◌, if◌then◌else◌, has, ◌+◌, ◌%◌, ◌^◌, ◌||◌, false, ltb,
}
use shiyanhui_libcsp.Analyzer.{
  Graph, Usage, usage_of, Analyzer, unset, get_analyzing_order, see_wrapped, reverse_graph, leaves,
  leaf_sizes, order_loop, degree, see_callees, insert_edge, insert_name, leaf_size, lower,
  callers_of, visit_all, visit, largest, must_get_max_stack_size,
}
use shiyanhui_libcsp.Namer.{
  Text, NamerType, async, sync, format, print, is_generated, begins_with, eq_text, parse,
  parse_parts, split, type_of, read, read_on,
}
use shiyanhui_libcsp.Analyzer.{usage_at, process_size}
use shiyanhui_libcsp.Analyzer.Files.{
  UsageLine, Flags, save_stack_usage, load_call_graph, load_stack_usage, load_line, line_usage,
  collect_wrapper_funcs,
}
use shiyanhui_libcsp.Analyzer.Calls.{has_call}
use shiyanhui_libcsp.Analyzer.Saved.{plain, after}
use shiyanhui_libcsp.Analyzer.Lines.{
  is_space, write_number, usage_text, usage_texts, call_texts, read_lines, read_calls,
}
use shiyanhui_libcsp.Analyzer.Written.{IsWord, load-written}
use shiyanhui_libcsp.Analyzer.Reserved.{analyzed, process_size-analyzed}
use shiyanhui_libcsp.Analyzer.Inner.{sizes_of, forget_callers, sizes_of-forget_callers}

abbrev frame : ℕ → Usage
frame n = record (usage_of unset) { frame_size = n }

abbrev program : Analyzer
program = record {
  stack_usages =
      λ f. if f == 10 then some (frame 4096) else if f == 11 then some (frame 16) else none;
  call_graph = λ f. if f == 10 then 11 ∷ [] else if f == 1 then 2 ∷ [] else [];
  default_stack_size = 2048;
}

-- Each function stands behind its callees.
the_order : (get_analyzing_order 9 (1 ∷ 2 ∷ []) (10 ∷ []) program).0 ≡ 2 ∷ 11 ∷ 1 ∷ 10 ∷ 10 ∷ []
unfolding get_analyzing_order see_wrapped reverse_graph leaves order_loop degree see_callees
    insert_edge insert_name lower callers_of
the_order = refl

-- The stack of 10 is found to be 24 bytes.
the_stack :
    must_get_max_stack_size 10 (visit_all (11 ∷ 10 ∷ []) (leaf_sizes (11 ∷ []) program)) ≡ 24
unfolding leaf_sizes leaf_size visit_all visit largest must_get_max_stack_size
the_stack = refl

-- Function 3 calls 1 and 2, and 2 calls 1.
abbrev reversed : Graph
reversed = (2, 3 ∷ []) ∷ (1, 2 ∷ 3 ∷ []) ∷ []

reversed_order :
    order_loop 9 reversed (λ f. degree f reversed) (leaves reversed reversed) ≡ 1 ∷ 2 ∷ 3 ∷ []
unfolding order_loop leaves degree lower callers_of
reversed_order = refl

program-few : (f : ℕ) → (has f (10 ∷ 1 ∷ 2 ∷ []) ≡ true) → has f (10 ∷ 11 ∷ 1 ∷ 2 ∷ []) ≡ true
program-few f i = ground arith

-- 10 calls 11, and 1 calls 2.
program-calls :
    (f c : ℕ) → has c (program.call_graph f) ≡ true → ((f ≡ 10) × (c ≡ 11)) ⊎ ((f ≡ 1) × (c ≡ 2))
program-calls f c i = elim (Bool-cases (f == 10)) [
  | inl ten ↦ inl (ground arith, let e = rw ten at i in ground arith)
  | inr other ↦ elim (Bool-cases (f == 1)) [
    | inl one ↦ inr (ground arith, let e = rw (other, one) at i in ground arith)
    | inr neither ↦ absurd (let e = rw (other, neither) at i in cc e)
  ]
]

abbrev program_rank : ℕ → ℕ
program_rank f = if f == 10 then 1 else if f == 1 then 1 else 0

program-closed :
    (f c : ℕ)
    → has f (10 ∷ 11 ∷ 1 ∷ 2 ∷ []) ≡ true
    → has c (program.call_graph f) ≡ true
    → has c (10 ∷ 11 ∷ 1 ∷ 2 ∷ []) ≡ true
program-closed f c h i = elim (program-calls f c i) [
  | inl (at_ten, at_eleven) ↦ rw at_eleven refl
  | inr (at_one, at_two) ↦ rw at_two refl
]

-- The frame of 4096 bytes is in no size.
sizes_of-forget_callers_example :
    sizes_of 9 (1 ∷ 2 ∷ []) ((1, 10) ∷ []) (forget_callers program)
    ≡ sizes_of 9 (1 ∷ 2 ∷ []) ((1, 10) ∷ []) program
sizes_of-forget_callers_example =
    sizes_of-forget_callers (10 ∷ 11 ∷ 1 ∷ 2 ∷ []) 9 (1 ∷ 2 ∷ []) ((1, 10) ∷ []) program program-few
      program-closed (omega arith)

-- 7 is the wrapper of 10, with 24 reserved bytes.
abbrev text : ℕ → Text
text f = if f == 7 then format (record { id = 0; name = 119 ∷ []; type = async }) else 119 ∷ []

abbrev wrapper : Usage
wrapper = record (usage_of unset) { frame_size = 64; proc_reserved = 24 }

abbrev usages : List (ℕ × Bool × Usage)
usages = (7, false, wrapper) ∷ (12, true, usage_of unset) ∷ []

abbrev calls : List (ℕ × List ℕ)
calls = (7, 10 ∷ []) ∷ (12, []) ∷ []

-- 7 is spelled as the wrapper is, any other name with one letter.
abbrev spelled : ℕ → Text
spelled f =
    if f == 7 then format (record { id = 0; name = 119 ∷ []; type = async }) else (1000 + f) ∷ []

abbrev named : Text → ℕ
named [] = 0
named (c ∷ []) = c - 1000
named (c ∷ d ∷ cs) = 7

spelled-IsWord : (f : ℕ) → IsWord (spelled f)
unfolding format print
spelled-IsWord f = elim (Bool-cases (f == 7)) [
  | inl here ↦ rw here refl
  | inr other ↦ let letter : is_space (1000 + f) ≡ false = ground arith in rw (other, letter) refl
]

named-spelled : (f : ℕ) → named (spelled f) ≡ f
unfolding format print
named-spelled f = elim (Bool-cases (f == 7)) [
  | inl here ↦ (let same : f ≡ 7 = ground arith in rw here (sym same))
  | inr other ↦ rw other (omega arith)
]

-- The line of the wrapper: its name, 64 and 24.
wrapper_line : usage_texts spelled usages ≡ (spelled 7 ++ (32 ∷ 54 ∷ 52 ∷ 32 ∷ 50 ∷ 52 ∷ [])) ∷ []
unfolding usage_texts usage_text write_number print
wrapper_line = refl

load-written_example :
    let r =
      load_call_graph
        (read_calls named (call_texts spelled calls))
        (load_stack_usage spelled plain (read_lines named (usage_texts spelled usages)) program) in
    ((f : ℕ) → r.stack_usages f ≡ after spelled usages program f)
    × ((f c : ℕ) → has c (r.call_graph f) ≡ (has_call f c calls || has c (program.call_graph f)))
load-written_example =
    load-written spelled named spelled-IsWord named-spelled usages calls program (refl, (refl, tt))
      (omega arith, (omega arith, tt))

abbrev files : List (Flags × List UsageLine)
files = (plain, save_stack_usage ((7, false, wrapper) ∷ (11, false, frame 16) ∷ [])) ∷ []

own_name : is_generated (text 10) ≡ false
unfolding is_generated begins_with eq_text
own_name = refl

process_size-analyzed_example :
    let a = analyzed text 9 (1 ∷ 2 ∷ []) (10 ∷ []) files program.call_graph 2048 in
    let size = must_get_max_stack_size 1 a in
    let max = (usage_at 10 a).max_stack_size in
    (usage_at 10 (process_size 1 10 a)).max_stack_size
    ≡ ((if ltb max size then size else max) + 183) % 2 ^ 64
process_size-analyzed_example =
    process_size-analyzed text 9 (1 ∷ 2 ∷ []) (10 ∷ []) files program.call_graph 2048 1 10 own_name

-- The line of the wrapper is read with its reserved bytes.
wrapper_read :
    (usage_at 7 (
      load_stack_usage text plain
        (save_stack_usage ((7, false, wrapper) ∷ []))
        program)).proc_reserved
    ≡ 24
unfolding load_stack_usage save_stack_usage load_line line_usage is_generated begins_with eq_text
    format print
wrapper_read = refl

-- Two wrappers with one id end the analysis.
ids_twice :
    let name = λ (t : NamerType). format (record { id = 3; name = 119 ∷ []; type = t }) in
    collect_wrapper_funcs ((119 ∷ []) ∷ name async ∷ name sync ∷ []) [] ≡ none
unfolding collect_wrapper_funcs parse parse_parts is_generated begins_with eq_text format print
    split type_of read read_on
ids_twice = refl
