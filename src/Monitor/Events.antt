-- ===== src/Monitor/Events.antt =====
-- A poll of the network, src/netpoll.c, and what csp_monitor_poll of src/monitor.c does with it.
use shiyanhui_libcsp.Base.{
  ℕ, ◌+◌, ◌^◌, ◌≤◌, ◌<◌, ◌≡◌, refl, sym, ap, subst, ◌∙◌, false, List, arith, length, has, Option,
  some,
}
use shiyanhui_libcsp.Runq.{Ptr, new, set}
use shiyanhui_libcsp.Runq.Chain.{IsQueue}
use shiyanhui_libcsp.Netpoll.{Netpoll, Event, poll as network_poll}
use shiyanhui_libcsp.Netpoll.Join.{WaitersDetached, served}
use shiyanhui_libcsp.Netpoll.Poll.{poll-Polled}
use shiyanhui_libcsp.Rbq.Ring.{IsRing, contents}
use shiyanhui_libcsp.Monitor.{Monitor, Outcome, poll}
use shiyanhui_libcsp.Monitor.Poll.{all_sure, Handled, poll-Handled}

-- The round of the monitor after a poll of the network.
abbrev pub poll_network : (np : ℕ) → List Event → Netpoll → Monitor → Option (Outcome × Monitor)
poll_network np evts s m =
    let l = (network_poll (λ i. false) evts s).0 in
    poll (l.len + 1) np (false, false) (false, false) all_sure np l.len l.head l.tail m

-- Where no compare-exchange fails, every process that waits is on no queue, and the global queue of
-- some processor `k` has room for all that a poll of the network wakes, `csp_monitor_poll` ends. It
-- handles exactly the waiting processes whose events are there: the first starving core gets them
-- all and is signalled, or each gets to exactly one place of a global queue.
pub poll_network-Handled :
    {e f : ℕ} (np k : ℕ) (evts : List Event) (s : Netpoll) (m : Monitor)
    → WaitersDetached s
    → length evts < 2 ^ 64
    → m.spreading.links ≡ (network_poll (λ i. false) evts s).1.links
    → ((j : ℕ) → IsRing e (m.spreading.grunqs j))
    → ((j : ℕ)
        → (m.spreading.grunqs j).fast.next + (network_poll (λ i. false) evts s).0.len < 2 ^ 62)
    → IsRing f m.starving_procs
    → k < np
    → length (contents (m.spreading.grunqs k)) + (network_poll (λ i. false) evts s).0.len ≤ 2 ^ e
    → (listed : List Ptr) × ((p : Ptr) → has p listed ≡ served s evts p)
      × (r : Outcome × Monitor) × (poll_network np evts s m ≡ some r)
      × Handled e np m listed r
poll_network-Handled {e} np k evts s m d small links rings range starving here room =
    let w = poll-Polled s (λ i. false) evts (λ i. refl) d small in
    let l = (network_poll (λ i. false) evts s).0 in
    let len : l.len ≡ length w.listed = w.queue.counted in
    let q : IsQueue m.spreading.links (set new l.len l.head l.tail) w.listed =
      subst (λ h. IsQueue h (set new l.len l.head l.tail) w.listed) (sym links) w.queue in
    let (r, done, handled) =
      poll-Handled np k l.len l.head l.tail w.listed m q rings (λ j. omega (arith, range j, len))
        starving here (omega (arith, room, len)) in
    (
      w.listed,
      w.exact,
      r,
      ap (λ n. poll (n + 1) np (false, false) (false, false) all_sure np l.len l.head l.tail m) len
          ∙ done,
      handled,
    )
