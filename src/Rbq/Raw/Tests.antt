-- ===== src/Rbq/Raw/Tests.antt =====
-- Runs of the raw queue, and the theorems at queues of two slots.
use shiyanhui_libcsp.Base.{ℕ, ◌^◌, ◌≡◌, refl, true, some, [], ◌∷◌, arith}
use shiyanhui_libcsp.Rbq.Ring.{window}
use shiyanhui_libcsp.Rbq.Raw.{Raw, len, new, try_push, try_push_front, try_pop, try_grow}
use shiyanhui_libcsp.Rbq.Raw.Refine.{IsRaw, contents, Takes, try_pop-first}
use shiyanhui_libcsp.Rbq.Raw.Grow.{try_grow-overwrites}

abbrev empty : Raw ℕ
unfolding new
empty = new 1 (λ i. 0)

abbrev two : Raw ℕ
unfolding empty try_push
two = (try_push (try_push empty 7).1 8).1

-- The readers' number wraps below 0, and the items come in order.
wrapped : contents (try_push_front (try_push empty 7).1 6).1 ≡ 6 ∷ 7 ∷ []
unfolding empty new try_push try_push_front len window
wrapped = refl

empty-IsRaw : IsRaw 1 empty
unfolding empty new len
empty-IsRaw = record {
  cap = refl;
  mask = refl;
  size = omega arith;
  slow = omega arith;
  fast = omega arith;
  fits = omega arith;
}

two-IsRaw : IsRaw 1 two
unfolding two empty new try_push len
two-IsRaw = record {
  cap = refl;
  mask = refl;
  size = omega arith;
  slow = omega arith;
  fast = omega arith;
  fits = omega arith;
}

two_full : len two ≡ 2 ^ 1
unfolding two empty new try_push len
two_full = refl

try_pop-first_example : Takes 1 two (try_pop two).0 (try_pop two).1
try_pop-first_example = try_pop-first 1 two two-IsRaw

try_grow-overwrites_example :
    ((try_push (try_grow true two).1 9).0 ≡ true)
    × ((try_pop (try_push (try_grow true two).1 9).1).0 ≡ some 9)
try_grow-overwrites_example = try_grow-overwrites 1 two 9 two-IsRaw two_full
