-- ===== src/Analyzer.antt =====
-- plugin/sa.hpp: how much stack each process gets. A function name is a number, ordered as the
-- names are. A std::set is a list in order, an unordered_map that is walked a list in the order in
-- which its keys came, any other one a function. An int64_t is its bit pattern, so that -1 is 2^64 - 1 and a value that is
-- set is below 2^63.
pub mod Frames
pub mod Inner
pub mod Waits
pub mod Lower
pub mod Order
pub mod Nodes
pub mod Reach
pub mod Edges
pub mod Callees
pub mod Explore
pub mod Complete
pub mod Files
pub mod Reserved
pub mod Calls
pub mod Saved
pub mod Lines
pub mod Written
pub mod Pages
mod Tests
use shiyanhui_libcsp.Base.{
  ℕ, zero, suc, ◌+◌, ◌-◌, ◌*◌, ◌/◌, ◌%◌, ◌^◌, Bool, true, false, Option, none, some, List, [], ◌∷◌,
  ◌++◌, ◌==◌, ltb, not, if◌then◌else◌, update, has,
}

abbrev pub Name : Type 0
Name = ℕ

abbrev pub unset : ℕ
unset = 2 ^ 64 - 1

-- `x >= 0` of an int64_t.
abbrev pub is_set : ℕ → Bool
is_set x = ltb x (2 ^ 63)

-- `stack_usage_t`, without its type, which only save_stack_usage reads.
pub record Usage : Type 0 where
  pub max_stack_size : ℕ
  pub stack_by_user : ℕ
  pub frame_size : ℕ
  pub proc_reserved : ℕ

-- The constructors of `stack_usage_t`.
abbrev pub usage_of : (max_stack_size : ℕ) → Usage
usage_of max_stack_size = record {
  max_stack_size = max_stack_size;
  stack_by_user = unset;
  frame_size = unset;
  proc_reserved = unset;
}

-- `analyzer_t` with the option that its analysis reads; a function is in the call graph with its
-- callees if it has any.
pub record Analyzer : Type 0 where
  pub stack_usages : Name → Option Usage
  pub call_graph : Name → List Name
  pub default_stack_size : ℕ

abbrev pub set_usage : Name → Usage → Analyzer → Analyzer
set_usage f su a = record a { stack_usages = update a.stack_usages f (some su) }

-- `stack_usages[f]`, which makes an entry where there is none.
abbrev pub usage_at : Name → Analyzer → Usage
usage_at f a = elim (a.stack_usages f) [ none ↦ usage_of unset | some su ↦ su ]

-- The reversed call graph: the functions that are called, each with its callers.
abbrev pub Graph : Type 0
Graph = List (Name × List Name)

-- `insert` of a std::set.
unfoldable pub insert_name : Name → List Name → List Name
insert_name x [] = x ∷ []
insert_name x (y ∷ ys) =
    let rest = insert_name x ys in
    if x == y then y ∷ ys else if ltb x y then x ∷ y ∷ ys else y ∷ rest

-- `rcg[callee].insert(caller)`.
unfoldable pub insert_edge : (callee caller : Name) → Graph → Graph
unfolding insert_name
insert_edge callee caller [] = (callee, caller ∷ []) ∷ []
insert_edge callee caller ((f, fs) ∷ g) =
    let rest = insert_edge callee caller g in
    if f == callee then ((f, insert_name caller fs) ∷ g) else ((f, fs) ∷ rest)

-- What the search has: the reversed graph, the functions to visit and those seen.
pub record Search : Type 0 where
  pub rcg : Graph
  pub queue : List Name
  pub visited : List Name

-- `if (visited.find(f) == visited.end())`.
abbrev pub discover : Name → Search → Search
discover f s =
    if has f s.visited then s else record s { queue = s.queue ++ f ∷ []; visited = f ∷ s.visited }

-- The loop over the callees of a function.
unfoldable pub see_callees : (caller : Name) → List Name → Search → Search
unfolding insert_edge
see_callees caller [] s = s
see_callees caller (callee ∷ fs) s =
    see_callees caller fs (discover callee (record s { rcg = insert_edge callee caller s.rcg }))

-- The loop over the wrapped functions before the search.
unfoldable pub see_wrapped : List Name → Search → Search
see_wrapped [] s = s
see_wrapped (f ∷ fs) s = see_wrapped fs (discover f s)

-- `while (!queue.empty())`, with one unit of fuel for each function.
unfoldable pub reverse_graph : (fuel : ℕ) → Analyzer → Search → Search
unfolding see_callees
reverse_graph zero a s = s
reverse_graph (suc fuel) a s = elim s.queue [
  | [] ↦ s
  | caller ∷ rest ↦
      reverse_graph fuel a (see_callees caller (a.call_graph caller) (record s { queue = rest }))
]

-- How often a function is a caller in the reversed graph: `degrees`.
unfoldable pub degree : Name → Graph → ℕ
degree f [] = 0
degree f ((callee, callers) ∷ g) = (if has f callers then 1 else 0) + degree f g

-- The functions of the reversed graph without callees in it.
unfoldable pub leaves : (todo all : Graph) → List Name
unfolding degree
leaves [] all = []
leaves ((f, fs) ∷ todo) all =
    let rest = leaves todo all in if degree f all == 0 then f ∷ rest else rest

-- The size of a function without callees.
unfoldable pub leaf_size : Name → Analyzer → Analyzer
leaf_size f a = elim (a.stack_usages f) [
  | none ↦ set_usage f (usage_of a.default_stack_size) a
  | some su ↦
      set_usage f
        (record su {
          max_stack_size = if is_set su.stack_by_user then su.stack_by_user else su.frame_size;
        })
        a
]

unfoldable pub leaf_sizes : List Name → Analyzer → Analyzer
unfolding leaf_size
leaf_sizes [] a = a
leaf_sizes (f ∷ fs) a = leaf_sizes fs (leaf_size f a)

-- The callers of a function in the reversed graph.
unfoldable pub callers_of : Name → Graph → List Name
callers_of f [] = []
callers_of f ((g, fs) ∷ rest) = if g == f then fs else callers_of f rest

-- `degrees[to]--` for each caller; those that come to 0 join the queue.
unfoldable pub lower : List Name → (Name → ℕ) → (queue : List Name) → (Name → ℕ) × List Name
lower [] degrees queue = (degrees, queue)
lower (to ∷ fs) degrees queue =
    let left = (degrees to + 2 ^ 64 - 1) % 2 ^ 64 in
    lower fs (update degrees to left) (if left == 0 then queue ++ to ∷ [] else queue)

-- `while (!zero_degrees.empty())`: the functions, each behind its callees.
unfoldable pub order_loop : (fuel : ℕ) → Graph → (Name → ℕ) → (queue : List Name) → List Name
unfolding lower callers_of
order_loop zero g degrees queue = []
order_loop (suc fuel) g degrees queue = elim queue [
  | [] ↦ []
  | from ∷ rest ↦
      let (degrees1, queue1) = lower (callers_of from g) degrees rest in
      from ∷ order_loop fuel g degrees1 queue1
]

-- An entry for each function of the order that has none.
unfoldable pub make_entries : List Name → Analyzer → Analyzer
make_entries [] a = a
make_entries (f ∷ fs) a = make_entries fs (set_usage f (usage_at f a) a)

-- `get_analyzing_order`, for the wrapped functions `wrapped`; the names `roots` are
-- csp_core_proc_exit and exit.
unfoldable pub get_analyzing_order :
    (fuel : ℕ) → (roots wrapped : List Name) → Analyzer → List Name × Analyzer
unfolding see_wrapped reverse_graph leaves leaf_sizes order_loop make_entries degree
get_analyzing_order fuel roots wrapped a =
    let start : Search = record { rcg = []; queue = roots; visited = roots } in
    let g = (reverse_graph fuel a (see_wrapped wrapped start)).rcg in
    let zeros = leaves g g in
    let a1 = leaf_sizes zeros a in
    let order = order_loop fuel g (λ f. degree f g) zeros ++ wrapped in
    (order, make_entries order a1)

-- `must_get_max_stack_size`.
unfoldable pub must_get_max_stack_size : Name → Analyzer → ℕ
must_get_max_stack_size f a = elim (a.stack_usages f) [
  | none ↦ a.default_stack_size
  | some su ↦ if is_set su.max_stack_size then su.max_stack_size else a.default_stack_size
]

-- The largest stack of the callees.
unfoldable pub largest : List Name → (max_stack_size : ℕ) → Analyzer → ℕ
unfolding must_get_max_stack_size
largest [] max_stack_size a = max_stack_size
largest (callee ∷ fs) max_stack_size a =
    let size = must_get_max_stack_size callee a in
    largest fs (if ltb max_stack_size size then size else max_stack_size) a

-- The body of the loop of `analyze` for one function of the order.
unfoldable pub visit : Name → Analyzer → Analyzer
unfolding largest
visit caller a =
    let su = usage_at caller a in
    if is_set su.max_stack_size
    then set_usage caller su a
    else if is_set su.stack_by_user
    then set_usage caller (record su { max_stack_size = su.stack_by_user }) a
    else (let size = largest (a.call_graph caller) 0 a in
        set_usage caller (record su { max_stack_size = (size + 8) % 2 ^ 64 }) a)

unfoldable pub visit_all : List Name → Analyzer → Analyzer
unfolding visit
visit_all [] a = a
visit_all (f ∷ fs) a = visit_all fs (visit f a)

-- The memory of one process: `exit_fn` is exit for csp_main and csp_core_proc_exit for others. The
-- comparison of an int64_t with a size_t is unsigned.
unfoldable pub process_size : (exit_fn wrapped : Name) → Analyzer → Analyzer
unfolding must_get_max_stack_size
process_size exit_fn wrapped a =
    let size = must_get_max_stack_size exit_fn a in
    let su = usage_at wrapped a in
    let larger = if ltb su.max_stack_size size then size else su.max_stack_size in
    set_usage wrapped
      (record su { max_stack_size = (larger + (su.proc_reserved + 22 * 2 ^ 3 + 8)) % 2 ^ 64 }) a

-- The number that gen_config writes: whole pages.
unfoldable pub whole_pages : (size : ℕ) → ℕ
whole_pages size =
    let page_size = 2 ^ 12 in
    (size / page_size + (if size % page_size == 0 then 0 else 1)) * page_size % 2 ^ 64

-- The loop over the wrapped functions, each with the function that it ends in.
unfoldable pub process_sizes : List (Name × Name) → Analyzer → Analyzer
unfolding process_size
process_sizes [] a = a
process_sizes ((exit_fn, f) ∷ fs) a = process_sizes fs (process_size exit_fn f a)

-- `gen_config`: the entries of csp_procs_size, in the order of the ids.
unfoldable pub config_sizes : List (Name × Name) → Analyzer → List ℕ
unfolding whole_pages
config_sizes [] a = []
config_sizes ((exit_fn, f) ∷ fs) a = whole_pages (usage_at f a).max_stack_size ∷ config_sizes fs a
