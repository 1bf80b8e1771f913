-- ===== src/Runq/Chain.antt =====
-- What a run queue stands for: the processes on the chain of links, first to last.
use shiyanhui_libcsp.Base.{
  last_of, ◌<◌, ◌^◌, ◌≡◌, ◌≢◌, List, [], ◌∷◌, true, arith, has, Distinct, length,
}
use shiyanhui_libcsp.Runq.{Ptr, null, Links, Lrunq}

-- From `p` the `next` fields lead through `xs` to NULL, and each `pre` field names the process
-- before; the first one's is `pre`.
abbrev pub Chain : Links → Ptr → Ptr → List Ptr → Type 0
Chain h pre p [] = p ≡ null
Chain h pre p (x ∷ xs) = (p ≡ x) × (x ≢ null) × ((h x).pre ≡ pre) × Chain h x (h x).next xs

pub record IsQueue (h : Links) (q : Lrunq) (xs : List Ptr) : Type 0 where
  pub chain : Chain h null q.head xs
  pub tail : q.tail ≡ last_of null xs
  pub distinct : Distinct xs
  pub counted : q.len ≡ length xs
  pub small : length xs < 2 ^ 64

-- A process on no queue, ready to be pushed.
pub record Detached (h : Links) (p : Ptr) : Type 0 where
  pub ne_null : p ≢ null
  pub no_pre : (h p).pre ≡ null
  pub no_next : (h p).next ≡ null

-- A chain survives any change that spares its own processes.
pub Chain-frame :
    (h g : Links) (pre p : Ptr) (xs : List Ptr)
    → ((a : Ptr) → has a xs ≡ true → g a ≡ h a)
    → Chain h pre p xs
    → Chain g pre p xs
Chain-frame h g pre p [] same c = c
Chain-frame h g pre p (x ∷ xs) same (e, n, b, c) =
    let here : g x ≡ h x = same x (ground arith) in
    (
      e,
      n,
      ground arith,
      ground (arith, Chain-frame h g x (h x).next xs (λ a i. same a (ground arith)) c),
    )

pub last-ne_null :
    (h : Links) (pre p x : Ptr) (xs : List Ptr) → Chain h pre p (x ∷ xs) → last_of x xs ≢ null
last-ne_null h pre p x [] c = c.1
last-ne_null h pre p x (y ∷ ys) c = last-ne_null h x (h x).next y ys c.3
