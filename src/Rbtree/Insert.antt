-- ===== src/Rbtree/Insert.antt =====
-- csp_rbtree_insert of src/rbtree.h.
use shiyanhui_libcsp.Base.{ℕ, zero, suc, ◌+◌, true, false, ◌==◌, ltb, if◌then◌else◌, not}
use shiyanhui_libcsp.Rbtree.{
  Ptr, Nodes, Tree, set_left, set_right, set_red, set_father, node_new, rotate_left, rotate_right,
}

-- What the variable `node` of type `csp_rbtree_node_t **` points to.
pub data Place : Type 0 where
  at_root : Place
  left_of : Ptr → Place
  right_of : Ptr → Place

-- The descent, on fuel: the node that has the key, or the father and the place for a new one.
pub data Spot : Type 0 where
  existing : Ptr → Spot
  vacant : (father : Ptr) → Place → Spot

unfoldable pub descend : ℕ → Nodes → (sentry key : ℕ) → (father : Ptr) → Place → (node : Ptr) → Spot
descend zero s sentry key father place node = vacant father place
descend (suc fuel) s sentry key father place node =
    let left = descend fuel s sentry key node (left_of node) (s node).left in
    let right = descend fuel s sentry key node (right_of node) (s node).right in
    if node == sentry
    then vacant father place
    else if key == (s node).key
    then existing node
    else if ltb key (s node).key
    then left
    else right

-- `*node = p`.
unfoldable pub store : Place → Ptr → Tree → Tree
unfolding set_left set_right
store at_root p t = record t { root = p }
store (left_of q) p t = record t { nodes = set_left q p t.nodes }
store (right_of q) p t = record t { nodes = set_right q p t.nodes }

-- The rotations of a 4-node whose `father` is the left or the right child of `grand`.
unfoldable pub straighten : (curr father grand : Ptr) → Nodes → Ptr × Nodes
unfolding rotate_left rotate_right set_left set_right
straighten curr father grand s =
    if (s grand).left == father
    then (let s1 =
          if (s father).right == curr
          then (let (top, s') = rotate_left father s in set_left grand top s')
          else s in
        rotate_right grand s1)
    else (let s1 =
          if (s father).left == curr
          then (let (top, s') = rotate_right father s in set_right grand top s')
          else s in
        rotate_left grand s1)

-- `curr` takes the place of `grand` under the father that it has now.
unfoldable pub relink : (curr grand : Ptr) → Tree → Tree
unfolding set_left set_right
relink curr grand t =
    let father = (t.nodes curr).father in
    if father == t.sentry
    then record t { root = curr }
    else if (t.nodes father).left == grand
    then record t { nodes = set_left father curr t.nodes }
    else record t { nodes = set_right father curr t.nodes }

-- The end of the loop's body: rotate, recolour, link.
unfoldable pub rebuild : (curr father grand : Ptr) → Tree → Tree
unfolding straighten relink set_red
rebuild curr father grand t =
    let (top, s1) = straighten curr father grand t.nodes in
    let s2 = set_red top false (set_red grand true s1) in relink top grand (record t { nodes = s2 })

unfoldable pub uncle_of : (father grand : Ptr) → Nodes → Ptr
uncle_of father grand s = if (s grand).left == father then (s grand).right else (s grand).left

-- A 5-node is split: `father`, `uncle` and `grand` change colour.
unfoldable pub flip : (father uncle grand : Ptr) → Nodes → Nodes
unfolding set_red
flip father uncle grand s = set_red grand true (set_red uncle false (set_red father false s))

unfoldable pub blacken_root : Tree → Tree
unfolding set_red
blacken_root t = record t { nodes = set_red t.root false t.nodes }

-- `while (father != tree->sentry)`, on fuel; each round climbs two levels.
unfoldable pub fix_loop : ℕ → (curr father : Ptr) → Tree → Tree
unfolding uncle_of flip rebuild blacken_root
fix_loop zero curr father t = t
fix_loop (suc fuel) curr father t =
    let grand = (t.nodes father).father in
    let uncle = uncle_of father grand t.nodes in
    let flipped = record t { nodes = flip father uncle grand t.nodes } in
    let rest = fix_loop fuel grand (flipped.nodes grand).father flipped in
    if father == t.sentry
    then blacken_root t
    else if not (t.nodes father).is_red
    then t
    else if (t.nodes uncle).is_red
    then rest
    else rebuild curr father grand t

-- A new node at the place that the descent found.
unfoldable pub attach : (fresh key : ℕ) → (father : Ptr) → Place → Tree → Tree
unfolding node_new store set_father
attach fresh key father place t =
    let t1 = store place fresh (record t { nodes = node_new fresh key t.sentry t.nodes }) in
    record t1 { nodes = set_father fresh father t1.nodes; nnodes = t1.nnodes + 1 }

unfoldable pub insert_at : (fresh key : ℕ) → Spot → Tree → Ptr × Tree
unfolding attach fix_loop
insert_at fresh key (existing p) t = (p, t)
insert_at fresh key (vacant father place) t =
    (fresh, fix_loop (t.nnodes + 2) fresh father (attach fresh key father place t))

-- `csp_rbtree_insert`, with `fresh` for what malloc gives.
unfoldable pub insert : (fresh key : ℕ) → Tree → Ptr × Tree
unfolding insert_at descend
insert fresh key t =
    insert_at fresh key (descend (t.nnodes + 1) t.nodes t.sentry key t.sentry at_root t.root) t
