-- ===== src/Analyzer/Reach.antt =====
-- The loop of the order in get_analyzing_order of plugin/sa.hpp reaches every function, once.
use shiyanhui_libcsp.Base.{
  ℕ, zero, suc, ◌≤◌, ◌<◌, ◌≡◌, refl, sym, ap, ◌∙◌, inl, inr, true, false, ◌||◌, Bool-cases, ◌==◌,
  List, [], ◌∷◌, arith, eq→==, has, has-append, Distinct, length,
}
use shiyanhui_libcsp.Analyzer.{Name, Graph, degree, leaves, callers_of, lower, order_loop}
use shiyanhui_libcsp.Analyzer.Waits.{IsGraph, waits, waits-degree, waits-past}
use shiyanhui_libcsp.Analyzer.Lower.{Lowered}
use shiyanhui_libcsp.Analyzer.Order.{
  Ready, Ready-Lowered, Ready-lower, leaves-Ready, leaves-has, leaves-key,
}
use shiyanhui_libcsp.Analyzer.Nodes.{
  nodes, keys-nodes, callers-keys, callers-nodes, waits-some, left, left-lt, left-zero, left-nil,
  nodes-keys,
}

-- `rank` puts each function below its callers, so the call graph has no circle.
abbrev pub IsRanked : (Name → ℕ) → Graph → Type 0
IsRanked rank g = (c f : Name) → has f (callers_of c g) ≡ true → rank c < rank f

-- The queue is of functions of the graph, and has all that wait for nobody and are not done.
record Covers (g : Graph) (past queue : List Name) : Type 0 where
  known : (f : Name) → has f queue ≡ true → has f (nodes g) ≡ true
  idle :
      (f : Name) → has f (nodes g) ≡ true → waits g past f ≡ 0 → (has f past || has f queue) ≡ true

Covers-lower :
    (g : Graph) (past : List Name) (degrees : Name → ℕ) (from : Name) (rest : List Name)
    (r : (Name → ℕ) × List Name)
    → IsGraph g
    → Ready g past degrees (from ∷ rest)
    → Covers g past (from ∷ rest)
    → Lowered (callers_of from g) degrees rest r
    → Covers g (from ∷ past) r.1
Covers-lower g past degrees from rest r w v k l =
    let fresh : has from past ≡ false = v.new from (rw (eq→== from from refl) refl) in
    let queued : (f : Name) → has f r.1 ≡ (has f rest || has f l.added) =
      λ f. ap (has f) l.behind ∙ has-append f rest l.added in
    record {
      known = λ f i. elim (Bool-cases (has f rest)) [
        | inl before ↦ k.known f (ground arith)
        | inr later ↦
            let calls : has f (callers_of from g) ≡ true = ground (arith, queued f, l.exact f) in
            callers-nodes g from f calls
      ];
      idle = λ f i z.
          let step = waits-past g from past f w.keys_once fresh in
          elim (Bool-cases (has f (callers_of from g))) [
            | inl calls ↦
                let one : degrees f ≡ 1 =
                  (let e = rw calls at step in omega (arith, e, z, v.counts f)) in
                let joins : has f l.added ≡ true =
                  l.exact f ∙ rw (calls, eq→== (degrees f) 1 one) refl in
                ground (arith, queued f)
            | inr apart ↦
                let same : waits g past f ≡ 0 = (let e = rw apart at step in omega (arith, e, z)) in
                ground (arith, queued f, k.idle f i same)
          ];
    }

-- Where no function waits to be visited, all are done.
descent :
    (rank : Name → ℕ) (g : Graph) (past : List Name)
    → IsRanked rank g
    → IsGraph g
    → Covers g past []
    → (n : ℕ) (f : Name) → rank f < n
    → has f (nodes g) ≡ true
    → has f past ≡ true
descent rank g past below w k zero f h i = absurd (omega arith)
descent rank g past below w k (suc n) f h i = elim (Bool-cases (has f past)) [
  | inl done ↦ done
  | inr undone ↦
      let waiting : 0 < waits g past f = elim (Bool-cases (waits g past f == 0)) [
        | inl nobody ↦ absurd (let out = k.idle f i (ground arith) in ground arith)
        | inr some_open ↦ ground arith
      ] in
      let (c, calls, open_call) = waits-some g past f w.keys_once waiting in
      let key = keys-nodes g c (callers-keys g c f calls) in
      absurd
        (cc (descent rank g past below w k n c (omega (arith, below c f calls)) key, open_call))
]

-- What the loop makes of a state between two rounds: each function of the graph that is not done
-- comes once.
record Completes (g : Graph) (past order : List Name) : Type 0 where
  all : (f : Name) → has f (nodes g) ≡ true → (has f past || has f order) ≡ true
  known : (f : Name) → has f order ≡ true → has f (nodes g) ≡ true
  new : (f : Name) → has f order ≡ true → has f past ≡ false
  once : Distinct order

nothing-Completes :
    (g : Graph) (past : List Name)
    → ((f : Name) → has f (nodes g) ≡ true → has f past ≡ true)
    → Completes g past []
nothing-Completes g past all = record {
  all = λ f i. ground (arith, all f i);
  known = λ f i. absurd (cc i);
  new = λ f i. absurd (cc i);
  once = tt;
}

order_loop-Completes :
    (rank : Name → ℕ) (us : List Name) (fuel : ℕ) (g : Graph) (past : List Name)
    (degrees : Name → ℕ) (queue : List Name)
    → IsRanked rank g
    → IsGraph g
    → Ready g past degrees queue
    → Covers g past queue
    → ((f : Name) → has f (nodes g) ≡ true → has f us ≡ true)
    → left past us ≤ fuel
    → Completes g past (order_loop fuel g degrees queue)
unfolding order_loop
order_loop-Completes rank us zero g past degrees queue below w v k in_us enough =
    nothing-Completes g past (λ f i. left-zero past f us (in_us f i) (omega arith))
order_loop-Completes rank us (suc fuel) g past degrees [] below w v k in_us enough =
    nothing-Completes g past (λ f i. descent rank g past below w k (suc (rank f)) f (omega arith) i)
order_loop-Completes rank us (suc fuel) g past degrees (from ∷ rest) below w v k in_us enough =
    let first : has from (from ∷ rest) ≡ true = rw (eq→== from from refl) refl in
    let l = Ready-Lowered g past degrees from rest w v in
    let node = k.known from first in
    let fresh = v.new from first in
    let fewer = left-lt past from us (in_us from node) fresh in
    let more =
      order_loop-Completes rank us fuel g (from ∷ past) _ _ below w
        (Ready-lower g past degrees from rest _ w v l)
        (Covers-lower g past degrees from rest _ w v k l) in_us (omega arith) in
    record {
      all = λ f i. let later = more.all f i in ground arith;
      known = λ f i. elim (Bool-cases (from == f)) [
        | inl here ↦
            (let same : from ≡ f = ground arith in ap (λ x. has x (nodes g)) (sym same) ∙ node)
        | inr other ↦ more.known f (rw other at i)
      ];
      new = λ f i. elim (Bool-cases (from == f)) [
        | inl here ↦ (let same : from ≡ f = ground arith in ap (λ x. has x past) (sym same) ∙ fresh)
        | inr other ↦ (let later = more.new f (rw other at i) in ground arith)
      ];
      once = (
        elim (Bool-cases (
            has from (
              order_loop fuel g (lower (callers_of from g) degrees rest).0
                (lower (callers_of from g) degrees rest).1))) [
                  | inl again ↦ absurd (let e = more.new from again in ground arith)
                  | inr out ↦ out
                ],
        more.once,
      );
    }

leaves-Covers : (g : Graph) → Covers g [] (leaves g g)
leaves-Covers g = record {
  known = λ f i. keys-nodes g f (leaves-has g g f i).1;
  idle = λ f i z.
      let leaf : degree f g ≡ 0 = sym (waits-degree g f) ∙ z in
      leaves-key g g f (nodes-keys g f i leaf) leaf;
}

-- Where no function calls itself by way of others and there is fuel for a list of all functions, the order that
-- `get_analyzing_order` computes from a reversed call graph, in which each function stands once
-- with each of its callers once, has each function of the graph, callers included, exactly once
-- and no other.
pub order_loop-nodes :
    (rank : Name → ℕ) (us : List Name) (fuel : ℕ) (g : Graph)
    → IsRanked rank g
    → IsGraph g
    → ((f : Name) → has f (nodes g) ≡ true → has f us ≡ true)
    → length us ≤ fuel
    → let order = order_loop fuel g (λ f. degree f g) (leaves g g) in
      ((f : Name) → has f order ≡ has f (nodes g)) × Distinct order
order_loop-nodes rank us fuel g below w in_us enough =
    let c =
      order_loop-Completes rank us fuel g [] (λ f. degree f g) (leaves g g) below w
        (leaves-Ready g w) (leaves-Covers g) in_us (omega (arith, left-nil us)) in
    (
      λ f. elim (Bool-cases (has f (nodes g))) [
        | inl i ↦ c.all f i ∙ sym i
        | inr o ↦ elim (Bool-cases (has f (order_loop fuel g (λ f. degree f g) (leaves g g)))) [
          | inl j ↦ absurd (cc (c.known f j, o))
          | inr j ↦ j ∙ sym o
        ]
      ],
      c.once,
    )
