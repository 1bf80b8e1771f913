-- ===== src/Netpoll/Tests.antt =====
-- Three processes wait at three descriptors; two of them get what they wait for, one of these twice.
use shiyanhui_libcsp.Base.{ℕ, ◌≡◌, ◌==◌, refl, arith, true, false, List, [], ◌∷◌, if◌then◌else◌}
use shiyanhui_libcsp.Runq.{null}
use shiyanhui_libcsp.Netpoll.{
  Waiter, Netpoll, Event, epollin, epollout, epollhup, wait, resume, stat_avail, poll, poll_events,
  poll_event, stat_cas, mask_of, link_up, nobody,
}
use shiyanhui_libcsp.Netpoll.Poll.{Polled, poll-Polled}
use shiyanhui_libcsp.Netpoll.Join.{WaitersDetached}
use shiyanhui_libcsp.Netpoll.Once.{Racer, race, by_event, by_timeout, race-first}

-- The process of descriptor `fd` is at `fd * 100`, for the descriptors 1 to 3.
abbrev waiter : ℕ → Waiter
waiter fd = record {
  registered = true;
  waiting_evt = epollin;
  proc = if fd == 1 then 100 else if fd == 2 then 200 else if fd == 3 then 300 else null;
  timer = null;
}

abbrev netpoll : Netpoll
netpoll = record {
  waiters = waiter;
  stats = λ p. if p == null then 0 else 1;
  links = λ p. record { pre = null; next = null };
}

abbrev events : List Event
events =
    record { events = epollhup; fd = 3 }
    ∷ record { events = epollout; fd = 2 }
    ∷ record { events = epollin; fd = 1 }
    ∷ record { events = epollin; fd = 3 }
    ∷ record { events = epollin; fd = 7 }
    ∷ []

two_woken : (poll (λ i. false) events netpoll).0.len ≡ 2
unfolding poll poll_events poll_event stat_cas mask_of link_up
two_woken = refl

third_first : (poll (λ i. false) events netpoll).0.head ≡ 300
unfolding poll poll_events poll_event stat_cas mask_of link_up
third_first = refl

netpoll-WaitersDetached : WaitersDetached netpoll
netpoll-WaitersDetached = λ p e. record { ne_null = ground arith; no_pre = refl; no_next = refl }

poll-Polled_example :
    Polled netpoll events (poll (λ i. false) events netpoll).0 (poll (λ i. false) events netpoll).1
poll-Polled_example =
    poll-Polled netpoll (λ i. false) events (λ i. refl) netpoll-WaitersDetached (omega arith)

-- The timeout of process 100 fails for no reason, an event of another process and one that 100 does
-- not wait for come, then its event, and then its timeout.
abbrev racers : List Racer
racers =
    by_timeout true 100
    ∷ by_event false (record { events = epollin; fd = 2 })
    ∷ by_event false (record { events = epollout; fd = 1 })
    ∷ by_event false (record { events = epollin; fd = 1 })
    ∷ by_timeout false 100
    ∷ []

race-first_example :
    ((race 100 racers nobody (wait 100 1 0 epollin null netpoll)).0
      ≡ by_event false (record { events = epollin; fd = 1 }) ∷ [])
    × ((resume 100 1 (race 100 racers nobody (wait 100 1 0 epollin null netpoll)).1).0 ≡ stat_avail)
unfolding mask_of
race-first_example =
    race-first 100 1 0 epollin null racers nobody netpoll (omega arith)
      (λ other apart e. absurd (ground arith))
