-- ===== src/Timer/Clock.antt =====
-- The time that csp_timer_heap_get of src/timer.c goes by: a time near the last one read, counted on by
-- the processor's clock, or a new one. `scaled` is what the arithmetic on doubles makes of a
-- difference of clocks, a parameter. Clocks, differences and times are bit patterns of an int64_t.
use shiyanhui_libcsp.Base.{
  ℕ, ◌+◌, ◌-◌, ◌%◌, ◌^◌, ◌≡◌, refl, List, [], ◌&&◌, not, ltb, ◌==◌, inl, inr, Bool-cases,
  if◌then◌else◌, arith,
}
use shiyanhui_libcsp.Timer.{Ptr, Heap, expire, get}

-- `time` and `clock` of a csp_timer_heap_t.
pub record Clock : Type 0 where
  pub time : ℕ
  pub clock : ℕ

-- CLOCKS_PER_SEC of <time.h>.
abbrev pub clocks_per_sec : ℕ
clocks_per_sec = 10 ^ 6

-- csp_timer_heap_init gives both fields.
abbrev pub init_clock : (now clock : ℕ) → Clock
init_clock now clock = record { time = now; clock = clock }

module _ (scaled : ℕ → ℕ) where
  -- `curr_time` of csp_timer_heap_get, where csp_timer_getclock gives `clock` and csp_timer_now would
  -- give `now`; a difference of clocks below 0 also is below CLOCKS_PER_SEC.
  unfoldable pub current_time : Clock → (clock now : ℕ) → ℕ × Clock
  current_time c clock now =
      let duration = (clock + 2 ^ 64 - c.clock) % 2 ^ 64 in
      if not (ltb duration clocks_per_sec) && ltb duration (2 ^ 63)
      then (now, record { time = now; clock = clock })
      else ((c.time + scaled duration) % 2 ^ 64, c)

  -- `csp_timer_heap_get`: the processes it hands out, the heap and its clock.
  unfoldable pub heap_get : Heap → Clock → (clock now : ℕ) → (List Ptr × Heap) × Clock
  unfolding current_time
  heap_get h c clock now =
      let t = current_time c clock now in if h.len == 0 then (([], h), c) else (get h t.0, t.1)

  -- The processes and the heap are those at the current time, also where the heap is empty.
  pub heap_get-get :
      (h : Heap) (c : Clock) (clock now : ℕ)
      → (heap_get h c clock now).0 ≡ get h (current_time c clock now).0
  unfolding heap_get get expire
  heap_get-get h c clock now = elim (Bool-cases (h.len == 0)) [
    | inl none_there ↦ (let empty : h.len ≡ 0 = ground arith in rw (none_there, get, empty) refl)
    | inr there ↦ rw there refl
  ]
