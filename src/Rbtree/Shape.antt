-- ===== src/Rbtree/Shape.antt =====
-- What the nodes on a store stand for: a binary tree of addresses, and its order as a search tree.
use shiyanhui_libcsp.Base.{ℕ, suc, ◌+◌, ◌<◌, ◌≡◌, ◌≢◌, ◌⊎◌, List, [], ◌∷◌, ◌++◌}
use shiyanhui_libcsp.Rbtree.{Ptr, Nodes, Tree}

pub data Shape : Type 0 where
  leaf : Shape
  node : Ptr → Shape → Shape → Shape

abbrev pub size : Shape → ℕ
size leaf = 0
size (node p l r) = suc (size l + size r)

abbrev pub in_order : Shape → List Ptr
in_order leaf = []
in_order (node p l r) = in_order l ++ p ∷ in_order r

abbrev pub In : Ptr → Shape → Type 0
In p leaf = ⊥
In p (node q l r) = (p ≡ q) ⊎ (In p l ⊎ In p r)

-- From `p` the fields `left` and `right` span the tree, with the sentry for every missing child.
abbrev pub Spans : Nodes → (sentry : Ptr) → Ptr → Shape → Type 0
Spans s sentry p leaf = p ≡ sentry
Spans s sentry p (node q l r) =
    (p ≡ q) × (q ≢ sentry) × Spans s sentry (s q).left l × Spans s sentry (s q).right r

abbrev pub IsSearch : Nodes → Shape → Type 0
IsSearch s leaf = Unit {0}
IsSearch s (node q l r) =
    ((p : Ptr) → In p l → (s p).key < (s q).key)
    × ((p : Ptr) → In p r → (s q).key < (s p).key)
    × IsSearch s l
    × IsSearch s r

-- A tree as the operations find it: its nodes span a search tree, all of them counted.
pub record IsTree (t : Tree) (sh : Shape) : Type 0 where
  pub spans : Spans t.nodes t.sentry t.root sh
  pub search : IsSearch t.nodes sh
  pub counted : t.nnodes ≡ size sh
