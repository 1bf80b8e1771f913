-- ===== src/Rbtree/Delete.antt =====
-- csp_rbtree_delete of src/rbtree.h.
use shiyanhui_libcsp.Base.{
  ℕ, zero, suc, ◌+◌, ◌-◌, Bool, true, false, Option, none, some, ◌==◌, if◌then◌else◌, not, ◌&&◌,
  ◌||◌, update,
}
use shiyanhui_libcsp.Rbtree.{
  Ptr, Nodes, Tree, set_left, set_right, set_red, set_father, rotate_left, rotate_right,
}

-- `while (succ->left != sentry) succ = succ->left;` on fuel.
unfoldable pub leftmost : ℕ → Nodes → (sentry node : Ptr) → Ptr
leftmost zero s sentry node = node
leftmost (suc fuel) s sentry node =
    let rest = leftmost fuel s sentry (s node).left in
    if (s node).left == sentry then node else rest

-- A node with two children takes the key and the value of its successor, which is deleted for it:
-- the node to delete, what is returned, and the store.
unfoldable pub replace_by_succ : Tree → (node : Ptr) → Ptr × Option Ptr × Nodes
unfolding leftmost
replace_by_succ t node =
    let s = t.nodes in
    if not ((s node).left == t.sentry) && not ((s node).right == t.sentry)
    then (let succ = leftmost (t.nnodes + 1) s t.sentry (s node).right in
        (
          succ,
          some node,
          update s node (record (s node) { key = (s succ).key; value = (s succ).value }),
        ))
    else (node, none, s)

-- `*(father->left == node ? &father->left : &father->right) = next`.
unfoldable pub link : (father node next : Ptr) → Nodes → Nodes
unfolding set_left set_right
link father node next s =
    if (s father).left == node then set_left father next s else set_right father next s

-- Whether a sibling is a 2-node.
unfoldable pub is_two : Nodes → Ptr → Bool
is_two s p = not (s (s p).left).is_red && not (s (s p).right).is_red

-- A rotation of a child of `father`, which is linked to the node on top.
unfoldable pub turn_right : Ptr → Nodes → Nodes
unfolding rotate_right set_right
turn_right father s = let (top, s') = rotate_right (s father).right s in set_right father top s'

unfoldable pub turn_left : Ptr → Nodes → Nodes
unfolding rotate_left set_left
turn_left father s = let (top, s') = rotate_left (s father).left s in set_left father top s'

-- What the code does before the last rotation, with the missing black at the left of `father`.
unfoldable pub borrow_left : (father : Ptr) → Nodes → Nodes
unfolding is_two turn_right rotate_right set_left set_red
borrow_left father s =
    if not (s (s father).right).is_red
    then (let sibling = (s father).right in
        if (s (s sibling).left).is_red
        then turn_right father s
        else set_red (s sibling).right false s)
    else (let sibling = (s (s father).right).left in
        if is_two s sibling
        then set_red sibling true s
        else let s1 =
            if (s (s sibling).left).is_red
            then (let (top, s') = rotate_right sibling s in set_left (s father).right top s')
            else set_red (s sibling).right false s in
          turn_right father s1)

-- The symmetrical case.
unfoldable pub borrow_right : (father : Ptr) → Nodes → Nodes
unfolding is_two turn_left rotate_left set_right set_red
borrow_right father s =
    if not (s (s father).left).is_red
    then (let sibling = (s father).left in
        if (s (s sibling).right).is_red
        then turn_left father s
        else set_red (s sibling).left false s)
    else (let sibling = (s (s father).left).right in
        if is_two s sibling
        then set_red sibling true s
        else let s1 =
            if (s (s sibling).right).is_red
            then (let (top, s') = rotate_left sibling s in set_right (s father).left top s')
            else set_red (s sibling).left false s in
          turn_left father s1)

-- The end of the loop's body: the last rotation, the colours, the link to the father.
unfoldable pub settle : (father top : Ptr) → Tree → Tree
unfolding set_red link
settle father top t =
    let s1 = set_red top (t.nodes father).is_red t.nodes in
    let s2 = set_red father false s1 in
    if (s2 top).father == t.sentry
    then record t { root = top; nodes = s2 }
    else record t { nodes = link (s2 top).father father top s2 }

unfoldable pub settle_left : (father : Ptr) → Tree → Tree
unfolding borrow_left settle rotate_left
settle_left father t =
    let (top, s) = rotate_left father (borrow_left father t.nodes) in
    settle father top (record t { nodes = s })

unfoldable pub settle_right : (father : Ptr) → Tree → Tree
unfolding borrow_right settle rotate_right
settle_right father t =
    let (top, s) = rotate_right father (borrow_right father t.nodes) in
    settle father top (record t { nodes = s })

-- The rebalancing loop, on fuel: a black is missing below `father` on the side of `next`. A sibling
-- that is a 2-node is merged, and the loop goes on above a father that was a 2-node too.
unfoldable pub rebalance : ℕ → (next father : Ptr) → Tree → Tree
unfolding is_two settle_left settle_right set_red
rebalance zero next father t = t
rebalance (suc fuel) next father t =
    let s = t.nodes in
    let on_left = (s father).left == next in
    let sibling = if on_left then (s father).right else (s father).left in
    let merged = set_red sibling true s in
    let climb = rebalance fuel father (merged father).father (record t { nodes = merged }) in
    if father == t.sentry
    then t
    else if not (s sibling).is_red && is_two s sibling
    then (if (merged father).is_red
        then record t { nodes = set_red father false merged }
        else climb)
    else if on_left
    then settle_left father t
    else settle_right father t

-- The part of `csp_rbtree_delete` behind the choice of the node, which has at most one child.
unfoldable pub remove : Tree → (node : Ptr) → Tree
unfolding link rebalance set_red set_father
remove t node =
    let s = t.nodes in
    let father = (s node).father in
    let next = if not ((s node).left == t.sentry) then (s node).left else (s node).right in
    let s1 = set_father next father s in
    let is_3_or_4_node = (s1 node).is_red || (s1 next).is_red in
    let s2 = set_red next false s1 in
    let t1 = record t { nodes = s2; nnodes = t.nnodes - 1 } in
    if father == t.sentry
    then record t1 { root = next }
    else let t2 = record t1 { nodes = link father node next s2 } in
      if is_3_or_4_node then t2 else rebalance (t.nnodes + 1) next father t2

-- `csp_rbtree_delete`: the node that took over its successor's key, and the tree.
unfoldable pub delete : Tree → (node : Ptr) → Option Ptr × Tree
unfolding replace_by_succ remove
delete t node =
    let (gone, ret, s) = replace_by_succ t node in (ret, remove (record t { nodes = s }) gone)
