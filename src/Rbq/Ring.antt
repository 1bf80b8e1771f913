-- ===== src/Rbq/Ring.antt =====
-- The invariant of a whole ring of src/rbq.h, the queue of items that it holds, and a push that
-- finds room.
use shiyanhui_libcsp.Base.{
  ℕ, zero, suc, ◌+◌, ◌-◌, ◌%◌, ◌^◌, ◌≤◌, ◌<◌, bit_and, bit_and-mask, ◌≡◌, refl, sym, ap, ap₂, subst,
  ◌∙◌, Bool, List, [], ◌∷◌, ◌++◌, arith, update, ne→==, eq→==, length,
}
use shiyanhui_libcsp.Rbq.Ptr.{Pointer, add64, barr_update}
use shiyanhui_libcsp.Rbq.Items.{items_set}
use shiyanhui_libcsp.Rbq.Inv.{
  IsPtr, Updated, mod-ne, barr_update-Updated, advance, advance-IsPtr, mark_avail-keeps,
}
use shiyanhui_libcsp.Rbq.{Rbq}

pub advanced :
    (p : Pointer) (m : ℕ)
    → p.barr ≤ p.next
    → p.next < 2 ^ 62
    → ((advance p m).next ≡ p.next + 1) × (p.barr ≤ (advance p m).barr)
advanced p m h r =
    let (n, b) = mark_avail-keeps (record p { next = add64 p.next 1 }) p.next m (omega arith) in
    (omega arith, b)

pub updated :
    (e : ℕ) (weak : Bool) (p : Pointer) (k m : ℕ)
    → k ≡ 2 ^ e
    → m ≡ 2 ^ e - 1
    → p.next < 2 ^ 63
    → IsPtr (2 ^ e) p
    → Updated (2 ^ e) weak p (barr_update weak p k m)
updated e weak p k m ek em r v = rw (ek, em) (barr_update-Updated e weak p r v)

module _ {ℓ} {A : Type ℓ} where
  -- A ring of `2 ^ e` slots between operations. The sequence numbers have not come near 2 ^ 63.
  pub record IsRing (e : ℕ) (q : Rbq A) : Type 0 where
    pub cap : q.cap ≡ 2 ^ e
    pub mask : q.mask ≡ 2 ^ e - 1
    pub size : 2 ^ e < 2 ^ 32
    pub slow : IsPtr (2 ^ e) q.slow
    pub fast : IsPtr (2 ^ e) q.fast
    pub order : q.slow.next ≤ q.fast.barr
    pub room : q.fast.next ≤ q.slow.barr + 2 ^ e
    pub range : q.fast.next < 2 ^ 62

  -- The `n` items from number `s` on.
  unfoldable pub window : (ℕ → A) → ℕ → ℕ → ℕ → List A
  window items cap s zero = []
  window items cap s (suc n) = items (s % cap) ∷ window items cap (s + 1) n

  abbrev pub contents : Rbq A → List A
  contents q = window q.items q.cap q.slow.next (q.fast.next - q.slow.next)

  pub length-window : (items : ℕ → A) (k s n : ℕ) → length (window items k s n) ≡ n
  unfolding window
  length-window items k s zero = refl
  length-window items k s (suc n) = ap suc (length-window items k (s + 1) n)

  -- A write to the slot behind a window extends it.
  pub window-update :
      (items : ℕ → A) (k s n i : ℕ) (x : A)
      → n < k
      → i ≡ (s + n) % k
      → window (update items i x) k s (suc n) ≡ window items k s n ++ x ∷ []
  unfolding window
  window-update items k s zero i x h e =
      let same : i ≡ s % k = e ∙ ap (λ t. t % k) (omega arith) in rw (eq→== i (s % k) same)
  window-update items k s (suc n) i x h e =
      let apart = mod-ne k s (s + suc n) (omega arith) (omega arith) in
      ap₂ ◌∷◌ (rw (ne→== i (s % k) (λ t. apart (sym t ∙ e))))
        (window-update items k (s + 1) n i x (omega arith) (e ∙ ap (λ t. t % k) (omega arith)))

  -- The mask picks the slot.
  pub slot : {e : ℕ} (q : Rbq A) (i : ℕ) → IsRing e q → bit_and i q.mask ≡ i % q.cap
  slot {e} q i v = ap (bit_and i) v.mask ∙ bit_and-mask e i ∙ ap (λ c. i % c) (sym v.cap)

  -- The ring after a push that finds room.
  abbrev pub put : Rbq A → A → Rbq A
  put q x = record q {
    items = items_set q.items q.mask q.fast.next x;
    fast = advance q.fast q.mask;
  }

  pub put-IsRing :
      {e : ℕ} (q : Rbq A) (x : A)
      → IsRing e q
      → q.fast.next < q.slow.barr + 2 ^ e
      → q.fast.next + 1 < 2 ^ 62
      → IsRing e (put q x)
  put-IsRing {e} q x v room r =
      let (n, b) = advanced q.fast q.mask v.fast.barr_le v.range in
      let kept = advance-IsPtr e q.fast (omega arith) (omega arith) v.fast in
      record {
        cap = v.cap;
        mask = v.mask;
        size = v.size;
        slow = v.slow;
        fast = subst (λ m. IsPtr (2 ^ e) (advance q.fast m)) (sym v.mask) kept;
        order = omega arith;
        room = omega arith;
        range = omega arith;
      }

  pub contents-put :
      {e : ℕ} (q : Rbq A) (x : A)
      → IsRing e q
      → q.fast.next < q.slow.barr + 2 ^ e
      → q.fast.next + 1 < 2 ^ 62
      → contents (put q x) ≡ contents q ++ x ∷ []
  unfolding items_set
  contents-put {e} q x v room r =
      let (n, b) = advanced q.fast q.mask v.fast.barr_le v.range in
      let len : (advance q.fast q.mask).next - q.slow.next ≡ suc (q.fast.next - q.slow.next) =
        omega arith in
      let at : bit_and q.fast.next q.mask ≡ (q.slow.next + (q.fast.next - q.slow.next)) % q.cap =
        slot q q.fast.next v ∙ ap (λ i. i % q.cap) (omega arith) in
      rw len
        (window-update q.items q.cap q.slow.next (q.fast.next - q.slow.next) _ x (omega arith) at)

  pub length-contents : (q : Rbq A) → length (contents q) ≡ q.fast.next - q.slow.next
  length-contents q = length-window q.items q.cap q.slow.next (q.fast.next - q.slow.next)
