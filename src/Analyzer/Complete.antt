-- ===== src/Analyzer/Complete.antt =====
-- get_analyzing_order of plugin/sa.hpp on a whole call graph.
use shiyanhui_libcsp.Base.{◌≡◌, true, List, [], ◌∷◌, has, Distinct}
use shiyanhui_libcsp.Analyzer.{Name, Analyzer}
use shiyanhui_libcsp.Analyzer.Explore.{Reached}

-- Every function of the list stands behind those that it calls; those in `past` are before the list.
abbrev pub CalleesFirst : Analyzer → (past : List Name) → List Name → Type 0
CalleesFirst a past [] = Unit {0}
CalleesFirst a past (f ∷ fs) =
    ((c : Name) → has c (a.call_graph f) ≡ true → has c past ≡ true) × CalleesFirst a (f ∷ past) fs

-- An order of the functions that a process can come to from `starts`, those that neither call nor
-- are called left out.
pub record Ordered (a : Analyzer) (starts order : List Name) : Type 0 where
  pub once : Distinct order
  pub all :
      (f c : Name)
      → Reached a starts f
      → has c (a.call_graph f) ≡ true
      → (has f order ≡ true) × (has c order ≡ true)
  pub only : (f : Name) → has f order ≡ true → Reached a starts f
  pub callees_first : CalleesFirst a [] order
