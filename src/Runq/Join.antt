-- ===== src/Runq/Join.antt =====
-- Two lists of processes become one: the last of the first names the first of the second, and back.
use shiyanhui_libcsp.Base.{
  ◌≡◌, ◌≢◌, refl, sym, ap, ◌∙◌, List, [], ◌∷◌, ◌++◌, true, false, arith, ◌==◌, eq→==, ne→==, has,
  Distinct, last_of, last_of-has, update,
}
use shiyanhui_libcsp.Runq.{Ptr, null, Link, Links}
use shiyanhui_libcsp.Runq.Chain.{Chain, Chain-frame}

-- `t->next = q; q->pre = t`.
abbrev pub hook : (t q : Ptr) → Links → Links
hook t q h =
    let h1 = update h t (record (h t) { next = q }) in update h1 q (record (h1 q) { pre = t })

pub hook-other : (t q : Ptr) (h : Links) (a : Ptr) → a ≢ t → a ≢ q → hook t q h a ≡ h a
hook-other t q h a not_t not_q =
    rw (ne→== q a (λ e. not_q (sym e)), ne→== t a (λ e. not_t (sym e))) refl

has-ne : (a b : Ptr) (xs : List Ptr) → has a xs ≡ true → has b xs ≡ false → a ≢ b
has-ne a b xs i o e = cc (ap (λ x. has x xs) e, i, o)

-- Two chains of different processes become one.
pub Chain-hook :
    (h : Links) (pre p x : Ptr) (xs : List Ptr) (y : Ptr) (ys : List Ptr)
    → Chain h pre p (x ∷ xs)
    → Chain h null y (y ∷ ys)
    → ((a : Ptr) → has a (x ∷ xs) ≡ true → has a (y ∷ ys) ≡ false)
    → Distinct (x ∷ xs)
    → Distinct (y ∷ ys)
    → Chain (hook (last_of x xs) y h) pre p ((x ∷ xs) ++ y ∷ ys)
Chain-hook h pre p x [] y ys (e, real, back, c) (f, real_y, back_y, d) apart dx (new, dy) =
    let x_not_y : (y == x) ≡ false =
      (let out = apart x (rw (eq→== x x refl) refl) in ground arith) in
    let y_not_x : (x == y) ≡ false = ne→== x y (λ t. absurd (cc (eq→== y x (sym t)))) in
    let same : (a : Ptr) → has a ys ≡ true → hook x y h a ≡ h a = λ a i.
      hook-other x y h a
        (λ t. absurd (
          let out = apart x (rw (eq→== x x refl) refl) in
          let in_list = ap (λ b. has b ys) (sym t) ∙ i in ground arith))
        (λ t. absurd (cc (ap (λ b. has b ys) (sym t) ∙ i, new))) in
    (
      e,
      real,
      rw (x_not_y, eq→== x x refl) back,
      rw (eq→== x x refl, x_not_y, y_not_x, eq→== y y refl)
          (refl, real_y, refl, Chain-frame h (hook x y h) y (h y).next ys same d),
    )
Chain-hook h pre p x (x2 ∷ xs) y ys (e, real, back, c) cy apart (new, dx) dy =
    let last = last_of x2 xs in
    let not_last : x ≢ last =
      λ t. absurd (cc (ap (λ a. has a (x2 ∷ xs)) t ∙ last_of-has null x2 xs, new)) in
    let not_y : x ≢ y = λ t.
      absurd (let out = apart x (rw (eq→== x x refl) refl) in ground (arith, eq→== y x (sym t))) in
    let same = hook-other last y h x not_last not_y in
    (
      e,
      real,
      ap (λ (l : Link). l.pre) same ∙ back,
      rw (ap (λ (l : Link). l.next) same)
          (Chain-hook h x (h x).next x2 xs y ys c cy (λ a i. apart a (ground arith)) dx dy),
    )
