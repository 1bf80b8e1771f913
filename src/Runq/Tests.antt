-- ===== src/Runq/Tests.antt =====
-- Runs of the queue operations, and the theorems at a queue of three processes.
use shiyanhui_libcsp.Base.{◌≡◌, refl, ◌∷◌, [], some, none, arith, update}
use shiyanhui_libcsp.Runq.{
  Ptr, Link, Links, Lrunq, new, set, Popped, ok, missed, try_pop_front, popm_front, advance,
}
use shiyanhui_libcsp.Runq.Chain.{IsQueue, Detached}
use shiyanhui_libcsp.Runq.Refine.{pop_spec, try_pop_front-pop_spec}
use shiyanhui_libcsp.Runq.Popm.{popm_front-split}

abbrev link : Ptr → Ptr → Link
link p n = record { pre = p; next = n }

-- The processes at 10, 20 and 30 in a chain; 40 is on no queue.
abbrev links : Links
links = update (update (update (λ _. link 0 0) 10 (link 0 20)) 20 (link 10 30)) 30 (link 20 0)

abbrev three : Lrunq
three = record { head = 10; tail = 30; len = 3; poped_times = 4 }

three-IsQueue : IsQueue links three (10 ∷ 20 ∷ 30 ∷ [])
three-IsQueue = ground arith

try_pop_front-pop_spec_example :
    (r : Popped × Lrunq × Links) × (try_pop_front three links ≡ some r)
    × (r.0 ≡ (pop_spec 4 (10 ∷ 20 ∷ 30 ∷ [])).0)
    × IsQueue r.2 r.1 (pop_spec 4 (10 ∷ 20 ∷ 30 ∷ [])).1
    × (r.1.poped_times ≡ (pop_spec 4 (10 ∷ 20 ∷ 30 ∷ [])).2)
    × ((p : Ptr) → r.0 ≡ ok p → Detached r.2 p)
try_pop_front-pop_spec_example =
    try_pop_front-pop_spec links three (10 ∷ 20 ∷ 30 ∷ []) three-IsQueue (omega arith)

popm_front-split_example :
    (r : (Ptr × Ptr) × Lrunq × Links) × (popm_front three 2 links ≡ some r)
    × IsQueue r.2 (set new 2 r.0.0 r.0.1) (10 ∷ 20 ∷ [])
    × IsQueue r.2 r.1 (30 ∷ [])
popm_front-split_example = popm_front-split links three new 10 (20 ∷ []) (30 ∷ []) three-IsQueue

-- The pop after 31 others is a miss, and taking more than there are is a fault.
miss :
    try_pop_front (record three { poped_times = 63 }) links
    ≡ some (missed, record three { poped_times = 64 }, links)
unfolding try_pop_front
miss = refl

too_many : popm_front three 5 links ≡ none
unfolding popm_front advance
too_many = refl
