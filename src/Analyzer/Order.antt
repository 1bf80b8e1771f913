-- ===== src/Analyzer/Order.antt =====
-- The order of the functions in get_analyzing_order of plugin/sa.hpp.
use shiyanhui_libcsp.Base.{
  ℕ, zero, suc, ◌≡◌, refl, sym, subst, ap, ◌∙◌, inl, inr, true, false, ◌||◌, Bool-cases, ◌==◌, List,
  [], ◌∷◌, ◌++◌, arith, eq→==, ne→==, has, has-append, Distinct,
}
use shiyanhui_libcsp.Analyzer.{Name, Graph, degree, leaves, callers_of, lower, order_loop}
use shiyanhui_libcsp.Analyzer.Waits.{
  keys, CallersDistinct, IsGraph, waits, waits-degree, waits-length, waits-past, waits-zero,
}
use shiyanhui_libcsp.Analyzer.Lower.{Lowered, lower-Lowered}

-- Every function of the list stands behind its callees, of which those in `past` are before the list.
abbrev pub Behind : Graph → (past : List Name) → List Name → Type 0
Behind g past [] = Unit {0}
Behind g past (f ∷ fs) =
    ((c : Name) → has f (callers_of c g) ≡ true → has c past ≡ true) × Behind g (f ∷ past) fs

-- The loop between two rounds: the degrees count the callees that are not done, and the queue holds
-- functions that wait for nobody and are not done.
pub record Ready (g : Graph) (past : List Name) (degrees : Name → ℕ) (queue : List Name)
    : Type 0 where
  pub counts : (f : Name) → degrees f ≡ waits g past f
  pub free : (f : Name) → has f queue ≡ true → degrees f ≡ 0
  pub done : (f : Name) → has f past ≡ true → degrees f ≡ 0
  pub new : (f : Name) → has f queue ≡ true → has f past ≡ false
  pub once : Distinct queue

callers_of-Distinct : (f : Name) (g : Graph) → CallersDistinct g → Distinct (callers_of f g)
unfolding callers_of
callers_of-Distinct f [] d = tt
callers_of-Distinct f ((c, fs) ∷ g) (here, d) = elim (Bool-cases (c == f)) [
  | inl same ↦ rw same here
  | inr other ↦ rw other (callers_of-Distinct f g d)
]

Distinct-join :
    (xs ys : List Name)
    → Distinct xs
    → Distinct ys
    → ((a : Name) → has a xs ≡ true → has a ys ≡ false)
    → Distinct (xs ++ ys)
Distinct-join [] ys d e apart = e
Distinct-join (x ∷ xs) ys (new, d) e apart = (
  has-append x xs ys ∙ rw (new, apart x (rw (eq→== x x refl) refl)) refl,
  Distinct-join xs ys d e (λ a i. apart a (ground arith)),
)

pub Ready-lower :
    (g : Graph) (past : List Name) (degrees : Name → ℕ) (from : Name) (rest : List Name)
    (r : (Name → ℕ) × List Name)
    → IsGraph g
    → Ready g past degrees (from ∷ rest)
    → Lowered (callers_of from g) degrees rest r
    → Ready g (from ∷ past) r.0 r.1
Ready-lower g past degrees from rest r w v l =
    let fresh : has from past ≡ false = v.new from (rw (eq→== from from refl) refl) in
    let idle : degrees from ≡ 0 = v.free from (rw (eq→== from from refl) refl) in
    let low : (f : Name) → degrees f ≡ 0 → r.0 f ≡ 0 = λ f z. omega (arith, l.now f, z) in
    let last : (f : Name)
        → has f l.added ≡ true
        → (degrees f ≡ 1) × (has f (callers_of from g) ≡ true) =
      λ f i. let both = sym (l.exact f) ∙ i in (ground arith, ground arith) in
    let apart : (f : Name) → has f l.added ≡ true → (from == f) ≡ false =
      λ f i. ne→== from f (λ t. absurd (omega (arith, idle, (last f i).0, ap degrees t))) in
    let early : (f : Name) → has f rest ≡ true → has f (from ∷ rest) ≡ true = λ f i. ground arith in
    record {
      counts = λ f. omega (arith, l.now f, v.counts f, waits-past g from past f w.keys_once fresh);
      free = λ f i.
          let where_from = sym (has-append f rest l.added) ∙ ap (has f) (sym l.behind) ∙ i in
          elim (Bool-cases (has f rest)) [
            | inl before ↦ low f (v.free f (early f before))
            | inr later ↦
                let joins : has f l.added ≡ true = ground arith in
                let (one, calls) = last f joins in
                let now = rw calls at (l.now f) in omega (arith, now, one)
          ];
      done = λ f i. elim (Bool-cases (from == f)) [
        | inl here ↦ (let same : from ≡ f = ground arith in low f (ap degrees (sym same) ∙ idle))
        | inr other ↦ low f (v.done f (rw other at i))
      ];
      new = λ f i.
          let where_from = sym (has-append f rest l.added) ∙ ap (has f) (sym l.behind) ∙ i in
          elim (Bool-cases (has f rest)) [
            | inl before ↦
                let distinct : (from == f) ≡ false =
                  ne→== from f (λ t. absurd (cc (ap (λ x. has x rest) t, v.once.0, before))) in
                rw distinct (v.new f (early f before))
            | inr later ↦
                let joins : has f l.added ≡ true = ground arith in
                rw (apart f joins) (elim (Bool-cases (has f past)) [
                  | inl old ↦ absurd (omega (arith, v.done f old, (last f joins).0))
                  | inr young ↦ young
                ])
          ];
      once = subst Distinct (sym l.behind) (
          Distinct-join rest l.added v.once.1 l.once (λ f i. elim (Bool-cases (has f l.added)) [
            | inl joins ↦ absurd (omega (arith, v.free f (early f i), (last f joins).0))
            | inr out ↦ out
          ]));
    }

-- What a round does to the degrees.
pub Ready-Lowered :
    (g : Graph) (past : List Name) (degrees : Name → ℕ) (from : Name) (rest : List Name)
    → IsGraph g
    → Ready g past degrees (from ∷ rest)
    → Lowered (callers_of from g) degrees rest (lower (callers_of from g) degrees rest)
Ready-Lowered g past degrees from rest w v =
    let fresh : has from past ≡ false = v.new from (rw (eq→== from from refl) refl) in
    lower-Lowered (callers_of from g) degrees rest (callers_of-Distinct from g w.callers_once)
      (λ f i.
        let past_one = rw i at (waits-past g from past f w.keys_once fresh) in
        omega (arith, past_one, v.counts f))
      (λ f. omega (arith, v.counts f, waits-length g past f, w.small))

order_loop-Behind :
    (fuel : ℕ) (g : Graph) (past : List Name) (degrees : Name → ℕ) (queue : List Name)
    → IsGraph g
    → Ready g past degrees queue
    → Behind g past (order_loop fuel g degrees queue)
unfolding order_loop
order_loop-Behind zero g past degrees queue w v = tt
order_loop-Behind (suc fuel) g past degrees [] w v = tt
order_loop-Behind (suc fuel) g past degrees (from ∷ rest) w v =
    let idle : degrees from ≡ 0 = v.free from (rw (eq→== from from refl) refl) in
    let l = Ready-Lowered g past degrees from rest w v in
    (
      λ c calls. waits-zero g past from c (sym (v.counts from) ∙ idle) calls,
      order_loop-Behind fuel g (from ∷ past) _ _ w (Ready-lower g past degrees from rest _ w v l),
    )

pub leaves-has :
    (todo all : Graph) (f : Name)
    → has f (leaves todo all) ≡ true
    → (degree f all ≡ 0) × (has f (keys todo) ≡ true)
unfolding leaves
leaves-has [] all f i = absurd (cc i)
leaves-has ((c, fs) ∷ todo) all f i = elim (Bool-cases (degree c all == 0)) [
  | inl leaf ↦
      let at : ((c == f) || has f (leaves todo all)) ≡ true = rw leaf at i in
      elim (Bool-cases (c == f)) [
        | inl here ↦
            let same : c ≡ f = ground arith in
            let none_in : degree c all ≡ 0 = ground arith in
            (ap (λ x. degree x all) (sym same) ∙ none_in, rw here refl)
        | inr other ↦
            let (zero_of, key) = leaves-has todo all f (rw other at at) in
            (zero_of, rw (other, key) refl)
      ]
  | inr inner ↦
      let (zero_of, key) = leaves-has todo all f (rw inner at i) in (zero_of, ground (arith, key))
]

pub leaves-key :
    (todo all : Graph) (f : Name)
    → has f (keys todo) ≡ true
    → degree f all ≡ 0
    → has f (leaves todo all) ≡ true
unfolding leaves
leaves-key [] all f i z = absurd (cc i)
leaves-key ((c, fs) ∷ todo) all f i z = elim (Bool-cases (c == f)) [
  | inl here ↦
      let same : c ≡ f = ground arith in
      let leaf : degree c all ≡ 0 = ap (λ x. degree x all) same ∙ z in rw (leaf, here) refl
  | inr other ↦
      let deep = leaves-key todo all f (rw other at i) z in
      elim (Bool-cases (degree c all == 0)) [
        | inl leaf ↦ rw (leaf, deep) (ground arith)
        | inr inner ↦ rw inner deep
      ]
]

leaves-Distinct : (todo all : Graph) → Distinct (keys todo) → Distinct (leaves todo all)
unfolding leaves
leaves-Distinct [] all d = tt
leaves-Distinct ((c, fs) ∷ todo) all (new, d) = elim (Bool-cases (degree c all == 0)) [
  | inl leaf ↦ rw leaf (
    elim (Bool-cases (has c (leaves todo all))) [
      | inl again ↦ absurd (cc ((leaves-has todo all c again).1, new))
      | inr out ↦ out
    ],
    leaves-Distinct todo all d,
  )
  | inr inner ↦ rw inner (leaves-Distinct todo all d)
]

-- The loop is ready at its start.
pub leaves-Ready : (g : Graph) → IsGraph g → Ready g [] (λ f. degree f g) (leaves g g)
leaves-Ready g w = record {
  counts = λ f. sym (waits-degree g f);
  free = λ f i. (leaves-has g g f i).0;
  done = λ f i. absurd (cc i);
  new = λ f i. refl;
  once = leaves-Distinct g g w.keys_once;
}

-- The order that `get_analyzing_order` computes from a reversed call graph, in which each function
-- stands once with each of its callers once, has every function behind all of its callees, however
-- many rounds the loop is run.
pub order_loop-leaves :
    (fuel : ℕ) (g : Graph)
    → IsGraph g
    → Behind g [] (order_loop fuel g (λ f. degree f g) (leaves g g))
order_loop-leaves fuel g w =
    order_loop-Behind fuel g [] (λ f. degree f g) (leaves g g) w (leaves-Ready g w)
