-- ===== src/Timer/Heaps.antt =====
-- All heaps of src/timer.c, one for each processor: their start, and the poll over them. The result
-- list of Timer.get is linked here through the fields `pre` and `next` of the processes, which no
-- heap reads. The numbers of processes are below 2^31, so that an int holds them.
use shiyanhui_libcsp.Base.{
  ℕ, zero, suc, ◌+◌, Bool, true, false, Option, some, ◌>>=◌, List, [], ◌∷◌, ltb, ◌==◌,
  if◌then◌else◌, update,
}
use shiyanhui_libcsp.Runq.{null, Links}
use shiyanhui_libcsp.Runq.Join.{hook}
use shiyanhui_libcsp.Timer.{Ptr, Slots, Heap, init, put, get}

-- A list of processes under construction: `n` or `total`, `head` or `*start`, `tail` or `*end`.
pub record Batch : Type 0 where
  pub total : ℕ
  pub start : Ptr
  pub end : Ptr
  pub links : Links

abbrev pub no_batch : Links → Batch
no_batch links = record { total = 0; start = null; end = null; links = links }

-- What the loop of `csp_timer_heap_get` does with the process it has deleted from the heap.
abbrev pub link_next : (top : Ptr) → Batch → Batch
link_next top b =
    if b.end == null
    then record b { total = b.total + 1; start = top; end = top }
    else record b { total = b.total + 1; end = top; links = hook b.end top b.links }

abbrev pub link_list : List Ptr → Batch → Batch
link_list [] b = b
link_list (top ∷ ps) b = link_list ps (link_next top b)

-- `csp_timer_heaps` with the list of a poll.
pub record Sweep : Type 0 where
  pub heaps : ℕ → Heap
  pub batch : Batch

-- The list `part` of one heap behind the list `b` of those before.
unfoldable pub join_batch : (b part : Batch) → Batch
join_batch b part =
    if ltb 0 part.total
    then if b.total == 0 then part else record {
      total = b.total + part.total;
      start = b.start;
      end = part.end;
      links = hook b.end part.start part.links;
    }
    else record b { links = part.links }

-- The body of the loop of `csp_timer_poll`.
abbrev pub poll_heap : (i now : ℕ) → Sweep → Sweep
poll_heap i now s =
    let (taken, heap) = get (s.heaps i) now in
    record {
      heaps = update s.heaps i heap;
      batch = join_batch s.batch (link_list taken (no_batch s.batch.links));
    }

-- The first `n` rounds of it; the clock shows `now i` at heap `i`.
unfoldable pub poll_heaps : (n : ℕ) → (now : ℕ → ℕ) → Sweep → Sweep
poll_heaps zero now s = s
poll_heaps (suc n) now s = poll_heap n (now n) (poll_heaps n now s)

-- `csp_timer_poll`; it leaves `*start` and `*end` as they were where it returns 0.
unfoldable pub poll : (len : ℕ) → (now : ℕ → ℕ) → (ℕ → Heap) → Links → Sweep
unfolding poll_heaps
poll len now heaps links = poll_heaps len now (record { heaps = heaps; batch = no_batch links })

-- `csp_timer_put`.
unfoldable pub put_timer : (pid : ℕ) → (proc : Ptr) → (ℕ → Heap) → Option (ℕ → Heap)
put_timer pid proc heaps = do heap ← put (heaps pid) proc; some (update heaps pid heap)

-- The loop of `csp_timer_heaps_init` from heap `i` on, `np - i` rounds; `room i` is whether malloc
-- gives the array of heap `i`. The result, the number of heaps that it records and the heaps.
unfoldable pub init_from :
    (todo i : ℕ) → (room : ℕ → Bool) → Slots → (Ptr → ℕ) → (ℕ → Heap) → Bool × ℕ × (ℕ → Heap)
init_from zero i room slots tokens heaps = (true, i, heaps)
init_from (suc todo) i room slots tokens heaps =
    let rest = init_from todo (suc i) room slots tokens (update heaps i (init i slots tokens)) in
    if room i then rest else (false, i, update heaps i (init i slots tokens))

-- `csp_timer_heaps_init`; `some_heaps` is whether malloc gives the array of the heaps.
unfoldable pub heaps_init :
    (np : ℕ)
    → (some_heaps : Bool) → (room : ℕ → Bool) → Slots
    → (Ptr → ℕ)
    → (len : ℕ) → (ℕ → Heap)
    → Bool × ℕ × (ℕ → Heap)
unfolding init_from
heaps_init np some_heaps room slots tokens len heaps =
    if some_heaps then init_from np 0 room slots tokens heaps else (false, len, heaps)
