-- ===== src/Rbtree.antt =====
-- src/rbtree.h: a red-black tree of nodes on a store. A node is its address; the sentry stands for
-- every missing child and for the father of the root. Keys are page counts, so not negative.
pub mod Insert
pub mod Delete
pub mod Shape
pub mod Find
pub mod Walk
pub mod Rotate
mod Tests
use shiyanhui_libcsp.Base.{
  ℕ, zero, suc, ◌+◌, ◌*◌, Bool, true, false, List, [], ◌∷◌, Option, none, some, ◌==◌, ltb,
  if◌then◌else◌, update, not, ◌-◌, ◌>>=◌,
}

abbrev pub Ptr : Type 0
Ptr = ℕ

-- `csp_rbtree_node_t`; `value` is an address, 0 for NULL.
pub record Node : Type 0 where
  pub key : ℕ
  pub value : ℕ
  pub is_red : Bool
  pub left : Ptr
  pub right : Ptr
  pub father : Ptr

abbrev pub Nodes : Type 0
Nodes = Ptr → Node

-- `csp_rbtree_t` with the nodes; `stack` is a local variable of the walk that uses it.
pub record Tree : Type 0 where
  pub root : Ptr
  pub sentry : Ptr
  pub nnodes : ℕ
  pub nodes : Nodes

unfoldable pub set_left : Ptr → Ptr → Nodes → Nodes
set_left p q s = update s p (record (s p) { left = q })

unfoldable pub set_right : Ptr → Ptr → Nodes → Nodes
set_right p q s = update s p (record (s p) { right = q })

unfoldable pub set_father : Ptr → Ptr → Nodes → Nodes
set_father p q s = update s p (record (s p) { father = q })

unfoldable pub set_red : Ptr → Bool → Nodes → Nodes
set_red p b s = update s p (record (s p) { is_red = b })

-- `csp_rbtree_node_new` at the address `fresh` that malloc gives.
unfoldable pub node_new : (fresh : Ptr) → (key sentry : ℕ) → Nodes → Nodes
node_new fresh key sentry s =
    update s fresh (record {
      key = key;
      value = 0;
      is_red = true;
      left = sentry;
      right = sentry;
      father = sentry;
    })

-- `csp_rbtree_node_rotate_left`: the new store and the node that is now on top.
unfoldable pub rotate_left : Ptr → Nodes → Ptr × Nodes
unfolding set_left set_right set_father
rotate_left node s =
    let right = (s node).right in
    let father = (s node).father in
    let s1 = set_right node (s right).left s in
    let s2 = set_father (s1 right).left node s1 in
    let s3 = set_left right node s2 in
    let s4 = set_father node right s3 in (right, set_father right father s4)

-- `csp_rbtree_node_rotate_right`.
unfoldable pub rotate_right : Ptr → Nodes → Ptr × Nodes
unfolding set_left set_right set_father
rotate_right node s =
    let left = (s node).left in
    let father = (s node).father in
    let s1 = set_left node (s left).right s in
    let s2 = set_father (s1 left).right node s1 in
    let s3 = set_right left node s2 in
    let s4 = set_father node left s3 in (left, set_father left father s4)

-- `csp_rbtree_new`, with the sentry at the address `fresh`; INT_MIN is written 0.
unfoldable pub new : (fresh : Ptr) → Nodes → Tree
new fresh s = record {
  root = fresh;
  sentry = fresh;
  nnodes = 0;
  nodes =
      update s fresh
        (record { key = 0; value = 0; is_red = false; left = fresh; right = fresh; father = 0 });
}

-- The loop of `csp_rbtree_find`, on fuel.
unfoldable pub find_loop : ℕ → Nodes → (sentry key node : ℕ) → Option Ptr
find_loop zero s sentry key node = none
find_loop (suc fuel) s sentry key node =
    let next = if ltb key (s node).key then (s node).left else (s node).right in
    let rest = find_loop fuel s sentry key next in
    if node == sentry then none else if key == (s node).key then some node else rest

-- `csp_rbtree_find`. A path to a leaf has at most `nnodes` nodes.
unfoldable pub find : Tree → (key : ℕ) → Option Ptr
unfolding find_loop
find t key = find_loop (t.nnodes + 1) t.nodes t.sentry key t.root

-- The loop of `csp_rbtree_find_gte`, on fuel; `greater` is NULL at first.
unfoldable pub find_gte_loop : ℕ → Nodes → (sentry key node : ℕ) → Option Ptr → Option Ptr
find_gte_loop zero s sentry key node greater = greater
find_gte_loop (suc fuel) s sentry key node greater =
    let left = find_gte_loop fuel s sentry key (s node).left (some node) in
    let right = find_gte_loop fuel s sentry key (s node).right greater in
    if node == sentry
    then greater
    else if key == (s node).key
    then some node
    else if ltb key (s node).key
    then left
    else right

unfoldable pub find_gte : Tree → (key : ℕ) → Option Ptr
unfolding find_gte_loop
find_gte t key = find_gte_loop (t.nnodes + 1) t.nodes t.sentry key t.root none

-- The length of the array `stack` of a tree.
abbrev pub stack_cap : ℕ
stack_cap = 128

-- The loop of `csp_rbtree_all_nodes`, on fuel: the number of nodes on the stack, the stack, its top
-- first, and the node to visit. `none` is a write behind the array `stack`.
unfoldable pub walk :
    ℕ → Nodes → (sentry : Ptr) → (nstack : ℕ) → List Ptr → (root : Ptr) → Option (List Ptr)
walk zero s sentry nstack stack root = none
walk (suc fuel) s sentry nstack [] root =
    let down = walk fuel s sentry (nstack + 1) (root ∷ []) (s root).left in
    if root == sentry then some [] else if ltb nstack stack_cap then down else none
walk (suc fuel) s sentry nstack (p ∷ stack) root =
    let down = walk fuel s sentry (nstack + 1) (root ∷ p ∷ stack) (s root).left in
    let up = walk fuel s sentry (nstack - 1) stack (s p).right >>= λ ps. some (p ∷ ps) in
    if root == sentry then up else if ltb nstack stack_cap then down else none

-- `csp_rbtree_all_nodes`: each node is pushed once and popped once.
unfoldable pub all_nodes : Tree → Option (List Ptr)
unfolding walk
all_nodes t =
    if t.nnodes == 0 then some [] else walk (2 * t.nnodes + 1) t.nodes t.sentry 0 [] t.root
