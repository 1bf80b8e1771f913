-- ===== src/Analyzer/Calls.antt =====
-- The files with the call graph of plugin/sa.hpp.
use shiyanhui_libcsp.Base.{
  ◌≡◌, refl, ap, ◌∙◌, inl, inr, Bool, false, ◌&&◌, ◌||◌, Bool-cases, List, [], ◌∷◌, ◌==◌, arith,
  has,
}
use shiyanhui_libcsp.Analyzer.{Name, Analyzer}
use shiyanhui_libcsp.Analyzer.Edges.{insert_name-has}
use shiyanhui_libcsp.Analyzer.Files.{add_call, add_calls, save_call_graph, load_call_graph}

-- Whether an entry of the call graph has the call.
abbrev pub has_call : (f c : Name) → List (Name × List Name) → Bool
has_call f c [] = false
has_call f c ((g, fs) ∷ cg) = ((g == f) && has c fs) || has_call f c cg

add_calls-has :
    (caller : Name) (fs : List Name) (a : Analyzer) (f c : Name)
    → has c ((add_calls caller fs a).call_graph f)
      ≡ (((caller == f) && has c fs) || has c (a.call_graph f))
unfolding add_calls add_call
add_calls-has caller [] a f c = ground arith
add_calls-has caller (callee ∷ fs) a f c =
    let rest = add_calls-has caller fs (add_call caller callee a) f c in
    elim (Bool-cases (caller == f)) [
      | inl here ↦
          let same : caller ≡ f = ground arith in
          let one = insert_name-has callee (a.call_graph caller) c in
          let old : has c (a.call_graph caller) ≡ has c (a.call_graph f) =
            ap (λ x. has c (a.call_graph x)) same in
          let step = rw here at rest in step ∙ rw (here, one, old) (ground arith)
      | inr other ↦ (let step = rw other at rest in step ∙ rw other refl)
    ]

pub load-save_calls :
    (cg : List (Name × List Name)) (a : Analyzer) (f c : Name)
    → has c ((load_call_graph (save_call_graph cg) a).call_graph f)
      ≡ (has_call f c cg || has c (a.call_graph f))
unfolding load_call_graph save_call_graph
load-save_calls [] a f c = refl
load-save_calls ((g, []) ∷ cg) a f c = load-save_calls cg a f c ∙ ground arith
load-save_calls ((g, callee ∷ fs) ∷ cg) a f c =
    load-save_calls cg (add_calls g (callee ∷ fs) a) f c
    ∙ rw (add_calls-has g (callee ∷ fs) a f c) (ground arith)

add_calls-usages :
    (caller : Name) (fs : List Name) (a : Analyzer)
    → (add_calls caller fs a).stack_usages ≡ a.stack_usages
unfolding add_calls add_call
add_calls-usages caller [] a = refl
add_calls-usages caller (callee ∷ fs) a = add_calls-usages caller fs (add_call caller callee a)

pub load_calls-usages :
    (lines : List (List Name)) (a : Analyzer)
    → (load_call_graph lines a).stack_usages ≡ a.stack_usages
unfolding load_call_graph
load_calls-usages [] a = refl
load_calls-usages ([] ∷ lines) a = load_calls-usages lines a
load_calls-usages ((caller ∷ fs) ∷ lines) a =
    load_calls-usages lines (add_calls caller fs a) ∙ add_calls-usages caller fs a
