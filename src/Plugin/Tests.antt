-- ===== src/Plugin/Tests.antt =====
-- A function with 64 bytes and an allocation of at least 16 that has no bound.
use shiyanhui_libcsp.Base.{ℕ, ◌≡◌, refl, arith, true, false, some, none, [], ◌∷◌}
use shiyanhui_libcsp.Namer.{Text, is_generated, begins_with, eq_text}
use shiyanhui_libcsp.Analyzer.{Analyzer, usage_at}
use shiyanhui_libcsp.Analyzer.Files.{save_stack_usage}
use shiyanhui_libcsp.Plugin.{
  Function, NakedNames, naked_func_infos, Types, static_size, is_dynamic, on_all_passes_end,
}
use shiyanhui_libcsp.Plugin.Dynamic.{is_open, whole_frame, on_all_passes_end-saved}

abbrev text : ℕ → Text
text c = 119 ∷ []

abbrev names : NakedNames
names = record {
  proc_restore = 1;
  fn_anchor_save = 2;
  fn_anchor_restore = 3;
  proc_exit_inner = 4;
  fn_block_epilogue = 5;
  block_epilogue_inner = 6;
  core_yield = 7;
}

abbrev unbounded_fn : Function
unbounded_fn = record {
  static_stack_size = 64;
  may_push = false;
  pushed = some 0;
  pushed_at_least = 0;
  allocates = true;
  unbounded = true;
  dynamic_stack_size = 16;
}

abbrev no_usages : Analyzer
no_usages = record { stack_usages = λ c. none; call_graph = λ c. []; default_stack_size = 2048 }

abbrev all_static : Types
all_static c = static_size

own_name : is_generated (text 50) ≡ false
unfolding is_generated begins_with eq_text
own_name = refl

framed : naked_func_infos names 50 ≡ none
unfolding naked_func_infos
framed = refl

on_all_passes_end-saved_example :
    let (noted, b) = on_all_passes_end text names 50 unbounded_fn (all_static, no_usages) in
    (is_dynamic (noted 50) ≡ is_open unbounded_fn)
    × (save_stack_usage ((50, is_dynamic (noted 50), usage_at 50 b) ∷ [])
        ≡ record { fn = some 50; frame = some (whole_frame unbounded_fn); reserved = none } ∷ [])
on_all_passes_end-saved_example =
    on_all_passes_end-saved text names 50 unbounded_fn all_static no_usages own_name framed
      (omega arith)
