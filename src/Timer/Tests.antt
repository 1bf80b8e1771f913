-- ===== src/Timer/Tests.antt =====
-- Runs of the timer heap, and its theorems at a heap of three timers.
use shiyanhui_libcsp.Base.{ℕ, ◌≡◌, refl, ◌==◌, if◌then◌else◌, ◌∷◌, [], some, none, arith, update}
use shiyanhui_libcsp.Runq.{null, Links}
use shiyanhui_libcsp.Timer.{
  Slots, Heap, put, del, get, expire, refill, shift_up, up_loop, down_loop, swap, son,
}
use shiyanhui_libcsp.Timer.Order.{IsHeap}
use shiyanhui_libcsp.Timer.Heaps.{poll, poll_heaps, join_batch}
use shiyanhui_libcsp.Timer.Del.{Deleted, del-Deleted}
use shiyanhui_libcsp.Timer.Put.{Added, put-Added, put-full}
use shiyanhui_libcsp.Timer.Poll.{Expired, SortedFrom, get-Expired}

-- The processes 10, 20 and 30 are due at 5, 9 and 7; the process 40 at 6 is in no heap.
abbrev slots : Slots
slots = record {
  procs = update (update (update (λ _. 0) 0 10) 1 20) 2 30;
  idx = update (update (update (λ _. 8) 10 0) 20 1) 30 2;
  when = update (update (update (update (λ _. 0) 10 5) 20 9) 30 7) 40 6;
}

abbrev three : Heap
three = record { cap = 64; len = 3; room = 64; slots = slots; token = 3; tokens = λ p. 1 }

three-IsHeap : IsHeap 3 slots
three-IsHeap = record { placed = λ i h. ground arith; ordered = λ c p h. ground arith }

put-Added_example : (g : Heap) × (put three 40 ≡ some g) × Added three 40 g
put-Added_example = put-Added three 40 three-IsHeap (λ a. absurd (ground arith)) (omega arith) refl

put-full_example : put (record three { len = 64 }) 40 ≡ none
put-full_example = put-full (record three { len = 64 }) 40 refl

del-Deleted_example : Deleted three 10 (del three 10)
del-Deleted_example = del-Deleted three 10 three-IsHeap (omega arith, refl)

get-Expired_example : Expired three 7 (get three 7) × SortedFrom slots.when 0 (get three 7).0
get-Expired_example = get-Expired three 7 three-IsHeap

expired_order : (get three 7).0 ≡ 10 ∷ 30 ∷ []
unfolding get expire del refill shift_up up_loop down_loop swap son
expired_order = refl

-- Two heaps; the second one is empty.
abbrev heaps : ℕ → Heap
heaps i = if i == 0 then three else record three { len = 0 }

abbrev no_links : Links
no_links p = record { pre = null; next = null }

-- 10 and 30 are due at 7, and linked.
polled_links :
    let s = poll 2 (λ i. 7) heaps no_links in
    (s.batch.total ≡ 2) × (s.batch.start ≡ 10) × (s.batch.end ≡ 30) × ((s.batch.links 10).next ≡ 30)
unfolding poll poll_heaps join_batch get expire del refill shift_up up_loop down_loop swap son
polled_links = (refl, refl, refl, refl)
