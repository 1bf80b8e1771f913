-- ===== src/Rbq/Tests.antt =====
-- Runs of the ring operations, and the theorems at rings of four slots.
use shiyanhui_libcsp.Base.{
  true, ◌+◌, ◌-◌, ◌*◌, sym, append-nil, List, if◌then◌else◌, [], ◌∷◌, ℕ, ◌≡◌, refl, false, some,
  arith, ◌^◌, inr,
}
use shiyanhui_libcsp.Rbq.Ptr.{
  single, multi, Pointer, unset, init, scan, barr_store, mark_avail, barr_update, next_rsv,
}
use shiyanhui_libcsp.Rbq.Items.{items_set, items_get}
use shiyanhui_libcsp.Rbq.Inv.{IsPtr}
use shiyanhui_libcsp.Rbq.Ring.{IsRing, contents, window}
use shiyanhui_libcsp.Rbq.Push.{Pushes, try_push-Pushes}
use shiyanhui_libcsp.Rbq.Pop.{Pops, try_pop-Pops}
use shiyanhui_libcsp.Rbq.Pushm.{try_pushm-push_each, push_each}
use shiyanhui_libcsp.Rbq.Popm.{PopsMany, try_popm-PopsMany}
use shiyanhui_libcsp.Rbq.Wait.{Pushing, read, pushm_round, pushm_start, popm}
use shiyanhui_libcsp.Rbq.Wait.Pushm.{KeepsWhole, pushm_round-KeepsWhole, pushm_round-overrun}
use shiyanhui_libcsp.Rbq.Wait.Popm.{sure, Took, popm-Took}
use shiyanhui_libcsp.Rbq.{
  Rbq, try_pushm, try_popm, new, try_push, push_at, readers_barr, try_pop, pop_at, writers_barr,
}

-- An empty ring for one writer and one reader.
abbrev idle : Pointer
idle = record { kind = single; next = 5; barr = 5; stats = λ i. unset }

abbrev ring : Rbq ℕ
ring = record { items = λ i. i; cap = 4; mask = 3; slow = idle; fast = idle }

idle-IsPtr : IsPtr (2 ^ 2) idle
idle-IsPtr = record {
  barr_le = omega arith;
  near = omega arith;
  exact = λ _. refl;
  marked = λ q i lo hi. absurd (omega arith);
  older = λ q s. inr refl;
}

ring-IsRing : IsRing 2 ring
ring-IsRing = record {
  cap = refl;
  mask = refl;
  size = omega arith;
  slow = idle-IsPtr;
  fast = idle-IsPtr;
  order = omega arith;
  room = omega arith;
  range = omega arith;
}

try_push-Pushes_example : Pushes 2 false false ring 7 (try_push false false ring 7)
try_push-Pushes_example = try_push-Pushes false false ring 7 ring-IsRing (omega arith)

abbrev one : Rbq ℕ
one = record ring { items = λ i. 7; fast = record idle { next = 6; barr = 6 } }

one-IsRing : IsRing 2 one
one-IsRing = record {
  cap = refl;
  mask = refl;
  size = omega arith;
  slow = idle-IsPtr;
  fast = record {
    barr_le = omega arith;
    near = omega arith;
    exact = λ _. refl;
    marked = λ q i lo hi. absurd (omega arith);
    older = λ q s. inr refl;
  };
  order = omega arith;
  room = omega arith;
  range = omega arith;
}

try_pop-Pops_example : Pops 2 false false one (try_pop false false one)
try_pop-Pops_example = try_pop-Pops false false one one-IsRing

try_pushm-push_each_example :
    ((try_pushm false false one (8 ∷ 9 ∷ [])).0 ≡ (push_each one (8 ∷ 9 ∷ [])).0)
    × (contents (try_pushm false false one (8 ∷ 9 ∷ [])).1 ≡ (
        if (push_each one (8 ∷ 9 ∷ [])).0
        then contents (push_each one (8 ∷ 9 ∷ [])).1
        else contents one))
try_pushm-push_each_example = try_pushm-push_each one (8 ∷ 9 ∷ []) one-IsRing (omega arith)

try_popm-PopsMany_example : PopsMany 2 false false one 3 (try_popm false false one 3)
try_popm-PopsMany_example = try_popm-PopsMany false false one 3 one-IsRing

-- A chunk of two of the four items that are left.
abbrev pushing : Pushing ℕ
pushing = record { ring = one; at = 0; left = 4; chunk = 2 }

pushm_round-KeepsWhole_example :
    KeepsWhole 2 4 (λ i. i) pushing (pushm_round (false, true) (λ i. i) pushing)
pushm_round-KeepsWhole_example =
    pushm_round-KeepsWhole (false, true) (λ i. i) pushing one-IsRing
      (record { exp = 1; count = 2; chunk = refl; left = refl; total = refl }) (omega arith)
      (omega arith) (omega arith)

pushm_round-overrun_example :
    let s1 = pushm_round (false, false) (λ i. i) (pushm_start ring 5) in
    let s2 = pushm_round (false, false) (λ i. i) (record s1 { ring = ring }) in
    (contents s1.ring ≡ read (λ i. i) 0 4)
    × (contents s2.ring ≡ read (λ i. i) 4 4)
    × (s2.left ≡ 2 ^ 64 + 5 - 2 * 4)
unfolding window
pushm_round-overrun_example =
    pushm_round-overrun (λ i. i) ring ring 5 ring-IsRing refl (omega arith) (omega arith)
      (omega arith) ring-IsRing refl (omega arith)

popm-Took_example : (r : List ℕ × Rbq ℕ) × (popm 2 sure (λ i q. q) one 1 ≡ some r) × Took 2 one 1 r
unfolding window
popm-Took_example =
    popm-Took 2 (λ i q. q) one 1
      (λ i q v. record { ring = v; more = []; items = sym (append-nil (contents q)) }) one-IsRing
      (omega arith)

-- Two pushes into a fresh ring of many writers and readers, then two pops.
round_trip :
    let q0 = new {A = ℕ} multi multi 2 (λ i. 0) in
    let q2 = (try_push false false (try_push false false q0 8).1 9).1 in
    ((try_pop false false q2).0 ≡ some 8)
    × ((try_pop false false (try_pop false false q2).1).0 ≡ some 9)
unfolding new init try_push push_at readers_barr try_pop pop_at writers_barr mark_avail barr_update
    next_rsv items_set items_get barr_store scan
round_trip = (refl, refl)
