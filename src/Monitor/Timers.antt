-- ===== src/Monitor/Timers.antt =====
-- A poll of the timers, src/timer.c, and what csp_monitor_poll of src/monitor.c does with it.
use shiyanhui_libcsp.Base.{
  ℕ, ◌+◌, ◌^◌, ◌≤◌, ◌<◌, ◌≡◌, sym, ap, subst, ◌∙◌, false, arith, length, total, has, List, Option,
  some,
}
use shiyanhui_libcsp.Runq.{Ptr, Links, new, set}
use shiyanhui_libcsp.Runq.Chain.{IsQueue}
use shiyanhui_libcsp.Timer.{Heap}
use shiyanhui_libcsp.Timer.Heaps.{poll as timer_poll}
use shiyanhui_libcsp.Timer.Sweep.{AreHeaps, poll-Gathered}
use shiyanhui_libcsp.Timer.Due.{due_in, Gathered-due_in}
use shiyanhui_libcsp.Rbq.Ring.{IsRing, contents}
use shiyanhui_libcsp.Monitor.{Monitor, Outcome, poll}
use shiyanhui_libcsp.Monitor.Poll.{all_sure, Handled, poll-Handled}

-- The round of the monitor after a poll of `len` heaps.
abbrev pub poll_timers :
    (np len : ℕ) → (now : ℕ → ℕ) → (ℕ → Heap) → Links → Monitor → Option (Outcome × Monitor)
poll_timers np len now heaps links m =
    let b = (timer_poll len now heaps links).batch in
    poll (b.total + 1) np (false, false) (false, false) all_sure np b.total b.start b.end m

-- Where no compare-exchange fails, the heaps are in order and hold fewer than 2^31 processes, none
-- of them in two heaps or on a list, and the global queue of some processor `k` has room for all that
-- are due, `csp_monitor_poll` of the timers ends. It handles exactly the processes that are due in
-- some heap: the first starving core gets them all and is signalled, or each gets to exactly one
-- place of a global queue.
pub poll_timers-Handled :
    {e f : ℕ} (np k len : ℕ) (now : ℕ → ℕ) (heaps : ℕ → Heap) (links : Links) (m : Monitor)
    → AreHeaps len heaps links
    → total len (λ i. (heaps i).len) < 2 ^ 31
    → m.spreading.links ≡ (timer_poll len now heaps links).batch.links
    → ((j : ℕ) → IsRing e (m.spreading.grunqs j))
    → ((j : ℕ)
        → (m.spreading.grunqs j).fast.next + (timer_poll len now heaps links).batch.total < 2 ^ 62)
    → IsRing f m.starving_procs
    → k < np
    → length (contents (m.spreading.grunqs k)) + (timer_poll len now heaps links).batch.total
      ≤ 2 ^ e
    → (listed : List Ptr) × ((p : Ptr) → has p listed ≡ due_in len now heaps p)
      × (r : Outcome × Monitor) × (poll_timers np len now heaps links m ≡ some r)
      × Handled e np m listed r
poll_timers-Handled {e} np k len now heaps links m h few same rings range starving here room =
    let w = poll-Gathered len now heaps links h few in
    let b = (timer_poll len now heaps links).batch in
    let count : b.total ≡ length w.listed = w.queue.counted in
    let q : IsQueue m.spreading.links (set new b.total b.start b.end) w.listed =
      subst (λ l. IsQueue l (set new b.total b.start b.end) w.listed) (sym same) w.queue in
    let (r, done, handled) =
      poll-Handled np k b.total b.start b.end w.listed m q rings
        (λ j. omega (arith, range j, count)) starving here (omega (arith, room, count)) in
    (
      w.listed,
      Gathered-due_in len now heaps links (timer_poll len now heaps links) w,
      r,
      ap (λ n. poll (n + 1) np (false, false) (false, false) all_sure np b.total b.start b.end m)
            count
          ∙ done,
      handled,
    )
