-- ===== src/Rbtree/Tests.antt =====
-- Runs of the tree operations, and the theorems at a tree of three nodes.
use shiyanhui_libcsp.Base.{ℕ, ◌*◌, ◌≡◌, ◌⊎◌, refl, List, [], ◌∷◌, none, some, ◌>>=◌, arith, false}
use shiyanhui_libcsp.Rbtree.{Ptr, Tree, new, find_gte, all_nodes}
use shiyanhui_libcsp.Rbtree.Insert.{insert}
use shiyanhui_libcsp.Rbtree.Delete.{delete}
use shiyanhui_libcsp.Rbtree.Shape.{leaf, node, IsTree}
use shiyanhui_libcsp.Rbtree.Find.{Least, Below, find_gte-Least}
use shiyanhui_libcsp.Rbtree.Walk.{all_nodes-in_order}

-- The node at an address has ten times that address as its key, so 1 holds 10.
abbrev build : List Ptr → Tree → Tree
build [] t = t
build (p ∷ ps) t = build ps (insert p (p * 10) t).1

abbrev empty : Tree
empty =
    new 100 (λ _. record { key = 0; value = 0; is_red = false; left = 0; right = 0; father = 0 })

abbrev keys : Tree → List Ptr → List ℕ
keys t [] = []
keys t (p ∷ ps) = (t.nodes p).key ∷ keys t ps

-- Ascending insertions rotate, and the list is in order.
ascending : all_nodes (build (1 ∷ 2 ∷ 3 ∷ 4 ∷ 5 ∷ 6 ∷ []) empty) ≡ some (1 ∷ 2 ∷ 3 ∷ 4 ∷ 5 ∷ 6 ∷ [])
unfolding insert all_nodes new
ascending = refl

-- The keys that stay after a deletion, whichever node is freed.
deleted :
    (all_nodes (delete (build (4 ∷ 2 ∷ 6 ∷ 1 ∷ 3 ∷ 5 ∷ 7 ∷ []) empty) 4).1 >>= λ ps.
    some (keys (delete (build (4 ∷ 2 ∷ 6 ∷ 1 ∷ 3 ∷ 5 ∷ 7 ∷ []) empty) 4).1 ps))
    ≡ some (10 ∷ 20 ∷ 30 ∷ 50 ∷ 60 ∷ 70 ∷ [])
unfolding insert all_nodes new delete
deleted = refl

abbrev three : Tree
unfolding insert new
three = build (1 ∷ 2 ∷ 3 ∷ []) empty

three-IsTree : IsTree three (node 2 (node 1 leaf leaf) (node 3 leaf leaf))
unfolding insert new
three-IsTree = ground arith

find_gte-Least_example :
    ((p : Ptr) × (find_gte three 15 ≡ some p)
      × Least three.nodes (node 2 (node 1 leaf leaf) (node 3 leaf leaf)) 15 p)
    ⊎ ((find_gte three 15 ≡ none)
        × Below three.nodes (node 2 (node 1 leaf leaf) (node 3 leaf leaf)) 15)
find_gte-Least_example =
    find_gte-Least three (node 2 (node 1 leaf leaf) (node 3 leaf leaf)) 15 three-IsTree

all_nodes-in_order_example : all_nodes three ≡ some (1 ∷ 2 ∷ 3 ∷ [])
all_nodes-in_order_example =
    all_nodes-in_order three (node 2 (node 1 leaf leaf) (node 3 leaf leaf)) three-IsTree

-- Deletions from both ends of seven nodes merge, borrow and free the root.
drained :
    all_nodes
      (delete
        (delete (delete (delete (build (4 ∷ 2 ∷ 6 ∷ 1 ∷ 3 ∷ 5 ∷ 7 ∷ []) empty) 1).1 3).1 7).1
        2).1
    ≡ some (4 ∷ 5 ∷ 6 ∷ [])
unfolding insert all_nodes new delete
drained = refl
