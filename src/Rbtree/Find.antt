-- ===== src/Rbtree/Find.antt =====
-- csp_rbtree_find and csp_rbtree_find_gte of src/rbtree.h.
use shiyanhui_libcsp.Base.{
  ℕ, zero, suc, ◌+◌, ◌<◌, ◌≤◌, ◌≡◌, ◌≢◌, ◌⊎◌, inl, inr, arith, Option, none, some, ◌==◌, ltb,
  Bool-cases, refl, true, false, ap, sym,
}
use shiyanhui_libcsp.Rbtree.{Ptr, Nodes, Tree, find_loop, find, find_gte_loop, find_gte}
use shiyanhui_libcsp.Rbtree.Shape.{Shape, leaf, node, size, In, Spans, IsSearch, IsTree}

-- Keys in an order: below, the same, above.
key-cases : (a b : ℕ) → (a ≡ b) ⊎ ((a < b) ⊎ (b < a))
key-cases a b = elim (Bool-cases (a == b)) [
  | inl same ↦ inl (ground arith)
  | inr other ↦ elim (Bool-cases (ltb a b)) [
    | inl below ↦ inr (inl (ground arith))
    | inr above ↦ inr (inr (ground arith))
  ]
]

-- The node of the tree that has the key, if there is one.
abbrev pub Finding : Nodes → Shape → (key : ℕ) → Option Ptr → Type 0
Finding s sh key none = (p : Ptr) → In p sh → (s p).key ≢ key
Finding s sh key (some p) = In p sh × ((s p).key ≡ key)

Finding-left :
    (s : Nodes) (q : Ptr) (l r : Shape) (key : ℕ) (o : Option Ptr)
    → IsSearch s (node q l r)
    → key < (s q).key
    → Finding s l key o
    → Finding s (node q l r) key o
Finding-left s q l r key none v h f = λ p m. elim m [
  | inl e ↦ λ k. ground arith
  | inr (inl i) ↦ λ k. f p i k
  | inr (inr i) ↦ λ k. omega (arith, v.1 p i)
]
Finding-left s q l r key (some p) v h f = (inr (inl f.0), f.1)

Finding-right :
    (s : Nodes) (q : Ptr) (l r : Shape) (key : ℕ) (o : Option Ptr)
    → IsSearch s (node q l r)
    → (s q).key < key
    → Finding s r key o
    → Finding s (node q l r) key o
Finding-right s q l r key none v h f = λ p m. elim m [
  | inl e ↦ λ k. ground arith
  | inr (inl i) ↦ λ k. omega (arith, v.0 p i)
  | inr (inr i) ↦ λ k. f p i k
]
Finding-right s q l r key (some p) v h f = (inr (inr f.0), f.1)

find_loop-Finding :
    (fuel : ℕ) (s : Nodes) (sentry key p : Ptr) (sh : Shape)
    → size sh < fuel
    → Spans s sentry p sh
    → IsSearch s sh
    → Finding s sh key (find_loop fuel s sentry key p)
unfolding find_loop
find_loop-Finding zero s sentry key p sh h w v = absurd (omega arith)
find_loop-Finding (suc fuel) s sentry key p leaf h w v =
    let at : (p == sentry) ≡ true = ground arith in rw at (λ q i k. i)
find_loop-Finding (suc fuel) s sentry key p (node q l r) h (e, n, wl, wr) v =
    let inner : (p == sentry) ≡ false = ground arith in
    elim (key-cases key (s q).key) [
      | inl same ↦
          let test : (key == (s p).key) ≡ true = ground arith in
          rw (inner, test) (inl e, ground arith)
      | inr (inl below) ↦
          let test : (key == (s p).key) ≡ false = ground arith in
          let side : ltb key (s p).key ≡ true = ground arith in
          rw (inner, test, side, e)
            (Finding-left s q l r key (find_loop fuel s sentry key (s q).left) v below
              (find_loop-Finding fuel s sentry key (s q).left l (omega arith) wl v.2))
      | inr (inr above) ↦
          let test : (key == (s p).key) ≡ false = ground arith in
          let side : ltb key (s p).key ≡ false = ground arith in
          rw (inner, test, side, e)
            (Finding-right s q l r key (find_loop fuel s sentry key (s q).right) v above
              (find_loop-Finding fuel s sentry key (s q).right r (omega arith) wr v.3))
    ]

-- In a search tree `csp_rbtree_find` gives a node that has the key; if it gives NULL no node has it.
pub find-Finding :
    (t : Tree) (sh : Shape) (key : ℕ) → IsTree t sh → Finding t.nodes sh key (find t key)
unfolding find
find-Finding t sh key v =
    find_loop-Finding (t.nnodes + 1) t.nodes t.sentry key t.root sh (omega (arith, v.counted))
      v.spans v.search

-- A node of the least key that is not below the key asked for.
abbrev pub Least : Nodes → Shape → (key : ℕ) → Ptr → Type 0
Least s sh key p =
    In p sh × (key ≤ (s p).key) × ((q : Ptr) → In q sh → key ≤ (s q).key → (s p).key ≤ (s q).key)

abbrev pub Below : Nodes → Shape → (key : ℕ) → Type 0
Below s sh key = (q : Ptr) → In q sh → (s q).key < key

-- The loop below a node: the least one there, or else `greater`, which it had before.
abbrev Loop : Nodes → Shape → (key : ℕ) → (greater result : Option Ptr) → Type 0
Loop s sh key greater o =
    ((p : Ptr) × (o ≡ some p) × Least s sh key p) ⊎ ((o ≡ greater) × Below s sh key)

Loop-left :
    (s : Nodes) (q : Ptr) (l r : Shape) (key : ℕ) (greater o : Option Ptr)
    → IsSearch s (node q l r)
    → key < (s q).key
    → Loop s l key (some q) o
    → Loop s (node q l r) key greater o
Loop-left s q l r key greater o v h (inl (p, e, m0)) =
    let (i, le, least) = m0 in
    inl (
      p,
      e,
      (
        inr (inl i),
        le,
        λ a m k. elim m [
          | inl same ↦ ground (arith, v.0 p i)
          | inr (inl left) ↦ least a left k
          | inr (inr right) ↦ omega (arith, v.0 p i, v.1 a right)
        ],
      ),
    )
Loop-left s q l r key greater o v h (inr (e, below)) = inl (
  q,
  e,
  (
    inl refl,
    omega arith,
    λ a m k. elim m [
      | inl same ↦ ground arith
      | inr (inl left) ↦ absurd (omega (arith, below a left))
      | inr (inr right) ↦ omega (arith, v.1 a right)
    ],
  ),
)

Loop-right :
    (s : Nodes) (q : Ptr) (l r : Shape) (key : ℕ) (greater o : Option Ptr)
    → IsSearch s (node q l r)
    → (s q).key < key
    → Loop s r key greater o
    → Loop s (node q l r) key greater o
Loop-right s q l r key greater o v h (inl (p, e, m0)) =
    let (i, le, least) = m0 in
    inl (
      p,
      e,
      (
        inr (inr i),
        le,
        λ a m k. elim m [
          | inl same ↦ absurd (ground arith)
          | inr (inl left) ↦ absurd (omega (arith, v.0 a left))
          | inr (inr right) ↦ least a right k
        ],
      ),
    )
Loop-right s q l r key greater o v h (inr (e, below)) = inr (
  e,
  λ a m. elim m [
    | inl same ↦ ground arith
    | inr (inl left) ↦ omega (arith, v.0 a left)
    | inr (inr right) ↦ below a right
  ],
)

Least-same :
    (s : Nodes) (q : Ptr) (l r : Shape) (key : ℕ) → (s q).key ≡ key → Least s (node q l r) key q
Least-same s q l r key e = (inl refl, omega arith, λ a m k. omega arith)

find_gte_loop-Loop :
    (fuel : ℕ) (s : Nodes) (sentry key p : Ptr) (sh : Shape) (greater : Option Ptr)
    → size sh < fuel
    → Spans s sentry p sh
    → IsSearch s sh
    → Loop s sh key greater (find_gte_loop fuel s sentry key p greater)
unfolding find_gte_loop
find_gte_loop-Loop zero s sentry key p sh greater h w v = absurd (omega arith)
find_gte_loop-Loop (suc fuel) s sentry key p leaf greater h w v =
    let at : (p == sentry) ≡ true = ground arith in rw at (inr (refl, λ q i. absurd i))
find_gte_loop-Loop (suc fuel) s sentry key p (node q l r) greater h (e, n, wl, wr) v =
    let inner : (p == sentry) ≡ false = ground arith in
    elim (key-cases key (s q).key) [
      | inl same ↦
          let test : (key == (s p).key) ≡ true = ground arith in
          rw (inner, test) (inl (q, ap some e, Least-same s q l r key (sym same)))
      | inr (inl below) ↦
          let test : (key == (s p).key) ≡ false = ground arith in
          let side : ltb key (s p).key ≡ true = ground arith in
          rw (inner, test, side, e)
            (Loop-left s q l r key greater (find_gte_loop fuel s sentry key (s q).left (some q)) v
              below
              (find_gte_loop-Loop fuel s sentry key (s q).left l (some q) (omega arith) wl v.2))
      | inr (inr above) ↦
          let test : (key == (s p).key) ≡ false = ground arith in
          let side : ltb key (s p).key ≡ false = ground arith in
          rw (inner, test, side, e)
            (Loop-right s q l r key greater (find_gte_loop fuel s sentry key (s q).right greater) v
              above
              (find_gte_loop-Loop fuel s sentry key (s q).right r greater (omega arith) wr v.3))
    ]

-- In a search tree `csp_rbtree_find_gte` gives a node of the least key that is greater than or equal
-- to the given one; if it gives NULL, all keys are less.
pub find_gte-Least :
    (t : Tree) (sh : Shape) (key : ℕ)
    → IsTree t sh
    → ((p : Ptr) × (find_gte t key ≡ some p) × Least t.nodes sh key p)
      ⊎ ((find_gte t key ≡ none) × Below t.nodes sh key)
unfolding find_gte
find_gte-Least t sh key v =
    find_gte_loop-Loop (t.nnodes + 1) t.nodes t.sentry key t.root sh none (omega (arith, v.counted))
      v.spans v.search
