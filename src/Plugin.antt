-- ===== src/Plugin.antt =====
-- plugin/plugin.cpp: what the plugin notes of a compiled function, and its arguments. What the
-- compiler knows of the function is a record.
pub mod Dynamic
mod Tests
use shiyanhui_libcsp.Base.{
  ℕ, ◌+◌, ◌%◌, ◌^◌, Bool, true, false, Option, none, some, List, [], ◌∷◌, ◌==◌, if◌then◌else◌,
  update,
}
use shiyanhui_libcsp.Namer.{Text, is_generated, eq_text}
use shiyanhui_libcsp.Analyzer.{Name, Usage, usage_of, unset, Analyzer}
use shiyanhui_libcsp.Analyzer.Files.{add_stack_usage, set_callees}

-- `stack_usage_type_t` of plugin/sa.hpp.
pub data StackUsageType : Type 0 where
  static_size : StackUsageType
  dynamic : StackUsageType
  dynamic_bounded : StackUsageType
  manually : StackUsageType

abbrev pub is_dynamic : StackUsageType → Bool
is_dynamic static_size = false
is_dynamic dynamic = true
is_dynamic dynamic_bounded = false
is_dynamic manually = false

-- What the compiler knows: the sizes of the frame, whether anything may be pushed, how much if that is
-- constant and at least how much, and the dynamic allocation.
pub record Function : Type 0 where
  pub static_stack_size : ℕ
  pub may_push : Bool
  pub pushed : Option ℕ
  pub pushed_at_least : ℕ
  pub allocates : Bool
  pub unbounded : Bool
  pub dynamic_stack_size : ℕ

-- `if (maybe_ne(current_function_pushed_stack_size, 0))`.
unfoldable pub add_pushed : Function → StackUsageType × ℕ
add_pushed f =
    if f.may_push
    then elim f.pushed [
      | some extra ↦ (dynamic_bounded, (f.static_stack_size + extra) % 2 ^ 64)
      | none ↦ (dynamic, (f.static_stack_size + f.pushed_at_least) % 2 ^ 64)
    ]
    else (static_size, f.static_stack_size)

-- `if (current_function_allocates_dynamic_stack_space)`.
unfoldable pub add_allocated : Function → StackUsageType × ℕ → StackUsageType × ℕ
add_allocated f (type, size) =
    if f.allocates
    then (
      if is_dynamic type then type else if f.unbounded then dynamic else dynamic_bounded,
      (size + f.dynamic_stack_size) % 2 ^ 64,
    )
    else (type, size)

unfoldable pub frame_usage : Function → StackUsageType × ℕ
unfolding add_pushed add_allocated
frame_usage f = add_allocated f (add_pushed f)

-- The types of the usages that the analyzer has, by name.
abbrev pub Types : Type 0
Types = Name → StackUsageType

-- The names in `naked_func_infos`.
pub record NakedNames : Type 0 where
  pub proc_restore : Name
  pub fn_anchor_save : Name
  pub fn_anchor_restore : Name
  pub proc_exit_inner : Name
  pub fn_block_epilogue : Name
  pub block_epilogue_inner : Name
  pub core_yield : Name

-- `csp::stack_usage_t(-1, frame_size)`.
abbrev pub naked_frame : (frame_size : ℕ) → Usage
naked_frame n = record (usage_of unset) { frame_size = n }

-- `naked_func_infos`: functions without a frame of their own, with their callees.
unfoldable pub naked_func_infos : NakedNames → Name → Option (Usage × List Name)
naked_func_infos names f =
    if f == names.proc_restore
    then some (naked_frame 0, [])
    else if f == names.fn_anchor_save
    then some (naked_frame 0, [])
    else if f == names.fn_anchor_restore
    then some (naked_frame 0, [])
    else if f == names.proc_exit_inner
    then some (naked_frame 0, [])
    else if f == names.fn_block_epilogue
    then some (naked_frame 8, names.block_epilogue_inner ∷ [])
    else if f == names.core_yield
    then some (naked_frame 8, names.fn_anchor_restore ∷ [])
    else none

-- `on_all_passes_end` for the function `current_name`.
unfoldable pub on_all_passes_end :
    (text : Name → Text)
    → NakedNames
    → (current_name : Name) → Function
    → Types × Analyzer
    → Types × Analyzer
unfolding frame_usage naked_func_infos
on_all_passes_end text names current_name f (types, a) =
    let (type, size) = frame_usage f in
    let measured = record (usage_of unset) { frame_size = size } in
    if is_generated (text current_name)
    then (types, a)
    else elim (naked_func_infos names current_name) [
      | some (su, callees) ↦ (
        update types current_name static_size,
        set_callees current_name callees (add_stack_usage current_name su a),
      )
      | none ↦ (update types current_name type, add_stack_usage current_name measured a)
    ]
