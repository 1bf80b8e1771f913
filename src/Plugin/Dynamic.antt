-- ===== src/Plugin/Dynamic.antt =====
-- Usages of dynamic size from plugin/plugin.cpp in the files of plugin/sa.hpp.
use shiyanhui_libcsp.Base.{
  ℕ, ◌+◌, ◌^◌, ◌<◌, ◌≡◌, refl, ap, ◌∙◌, inl, inr, Bool, true, false, ◌&&◌, ◌||◌, Bool-cases,
  Option-cases, none, some, [], ◌∷◌, lt→ltb, if◌then◌else◌, arith, eq→==,
}
use shiyanhui_libcsp.Namer.{Text, is_generated}
use shiyanhui_libcsp.Analyzer.{Name, Usage, usage_of, unset, is_set, Analyzer, usage_at}
use shiyanhui_libcsp.Analyzer.Files.{save_stack_usage}
use shiyanhui_libcsp.Plugin.{
  dynamic, dynamic_bounded, is_dynamic, NakedNames, naked_func_infos, Function, add_pushed,
  add_allocated, frame_usage, Types, on_all_passes_end,
}

-- What is pushed, as far as it is known.
abbrev pub pushed_size : Function → ℕ
pushed_size f =
    if f.may_push then elim f.pushed [ some extra ↦ extra | none ↦ f.pushed_at_least ] else 0

-- All that the compiler knows of the frame.
abbrev pub whole_frame : Function → ℕ
whole_frame f =
    f.static_stack_size + pushed_size f + (if f.allocates then f.dynamic_stack_size else 0)

-- Whether the frame may be larger than what is known.
abbrev pub is_open : Function → Bool
is_open f =
    (f.may_push && elim f.pushed [ some extra ↦ false | none ↦ true ])
    || (f.allocates && f.unbounded)

either_dynamic : (b : Bool) → is_dynamic (if b then dynamic else dynamic_bounded) ≡ b
either_dynamic true = refl
either_dynamic false = refl

frame_usage-whole :
    (f : Function)
    → whole_frame f < 2 ^ 63
    → (is_dynamic (frame_usage f).0 ≡ is_open f) × ((frame_usage f).1 ≡ whole_frame f)
unfolding frame_usage add_pushed add_allocated
frame_usage-whole f small = elim (Bool-cases f.may_push) [
  | inl pushing ↦ elim (Option-cases f.pushed) [
    | inl e ↦ elim (Bool-cases f.allocates) [
      | inl more ↦
          let fits = rw (pushing, e, more) at small in
          rw (pushing, e, more) (refl, omega (arith, fits))
      | inr fixed ↦
          let fits = rw (pushing, e, fixed) at small in
          rw (pushing, e, fixed) (refl, omega (arith, fits))
    ]
    | inr (extra, e) ↦ elim (Bool-cases f.allocates) [
      | inl more ↦
          let fits = rw (pushing, e, more) at small in
          rw (pushing, e, more) (either_dynamic f.unbounded, omega (arith, fits))
      | inr fixed ↦
          let fits = rw (pushing, e, fixed) at small in
          rw (pushing, e, fixed) (refl, omega (arith, fits))
    ]
  ]
  | inr still ↦ elim (Bool-cases f.allocates) [
    | inl more ↦
        let fits = rw (still, more) at small in
        rw (still, more) (either_dynamic f.unbounded, omega (arith, fits))
    | inr fixed ↦
        let fits = rw (still, fixed) at small in rw (still, fixed) (refl, omega (arith, fits))
  ]
]

abbrev measured : ℕ → Usage
measured n = record (usage_of unset) { frame_size = n }

save-measured :
    (c : Name) (d : Bool) (n : ℕ)
    → is_set n ≡ true
    → save_stack_usage ((c, d, measured n) ∷ [])
      ≡ record { fn = some c; frame = some n; reserved = none } ∷ []
unfolding save_stack_usage
save-measured c true n set = rw set refl
save-measured c false n set = refl

-- For a function that the plugin has not made and that has a frame of its own, below 2^63 bytes, the
-- usage that is noted has the type DYNAMIC exactly if the frame may be larger than the compiler knows,
-- and in both cases `save` writes the size that is known: no usage of type DYNAMIC is left out.
pub on_all_passes_end-saved :
    (text : Name → Text) (names : NakedNames) (c : Name) (f : Function) (types : Types)
    (a : Analyzer)
    → is_generated (text c) ≡ false
    → naked_func_infos names c ≡ none
    → whole_frame f < 2 ^ 63
    → let (noted, b) = on_all_passes_end text names c f (types, a) in
      (is_dynamic (noted c) ≡ is_open f)
      × (save_stack_usage ((c, is_dynamic (noted c), usage_at c b) ∷ [])
          ≡ record { fn = some c; frame = some (whole_frame f); reserved = none } ∷ [])
unfolding on_all_passes_end save_stack_usage
on_all_passes_end-saved text names c f types a own framed small =
    let (type, size) = frame_usage-whole f small in
    let set : is_set (whole_frame f) ≡ true = lt→ltb (whole_frame f) (2 ^ 63) small in
    let (noted, b) = on_all_passes_end text names c f (types, a) in
    let kind : is_dynamic (noted c) ≡ is_open f = rw (own, framed, eq→== c c refl) type in
    let usage : usage_at c b ≡ measured (whole_frame f) =
      rw (usage_at, own, framed, eq→== c c refl) (ap measured size) in
    (
      kind,
      ap (λ u. save_stack_usage ((c, is_dynamic (noted c), u) ∷ [])) usage
          ∙ save-measured c (is_dynamic (noted c)) (whole_frame f) set,
    )
