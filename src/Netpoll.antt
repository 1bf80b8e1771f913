-- ===== src/Netpoll.antt =====
-- src/netpoll.c: processes that wait for an event of a file descriptor, the poll that wakes them and
-- the handler of their timeouts. The events that epoll_wait gives are an argument. An atomic
-- access is one step; a compare-exchange is weak, an argument says whether it fails for no reason.
pub mod Join
pub mod Poll
pub mod Once
mod Tests
use shiyanhui_libcsp.Base.{
  ℕ, ◌+◌, ◌%◌, ◌^◌, bit_and, bit_or, Bool, true, false, List, [], ◌∷◌, ◌++◌, ◌==◌, ltb, not, ◌&&◌,
  if◌then◌else◌, update,
}
use shiyanhui_libcsp.Runq.{Ptr, null, Links}

-- `csp_proc_stat_none` and its kin, src/proc.h.
abbrev pub stat_none : ℕ
stat_none = 0

abbrev pub stat_waiting : ℕ
stat_waiting = 1

abbrev pub stat_avail : ℕ
stat_avail = 2

abbrev pub stat_timeout : ℕ
stat_timeout = 3

-- EPOLLIN, EPOLLOUT, EPOLLERR and EPOLLHUP of sys/epoll.h.
abbrev pub epollin : ℕ
epollin = 1

abbrev pub epollout : ℕ
epollout = 4

abbrev pub epollerr : ℕ
epollerr = 8

abbrev pub epollhup : ℕ
epollhup = 16

-- `csp_netpoll_waiter_t`: `timer` is the address of the timer, or NULL.
pub record Waiter : Type 0 where
  pub registered : Bool
  pub waiting_evt : ℕ
  pub proc : Ptr
  pub timer : Ptr

-- The waiters by file descriptor, the state of the processes, and their queue links.
pub record Netpoll : Type 0 where
  pub waiters : ℕ → Waiter
  pub stats : Ptr → ℕ
  pub links : Links

-- `struct epoll_event`.
pub record Event : Type 0 where
  pub events : ℕ
  pub fd : ℕ

-- `csp_proc_stat_cas`.
unfoldable pub stat_cas : (weak : Bool) → Ptr → (old new : ℕ) → Netpoll → Bool × Netpoll
stat_cas weak proc old new s =
    if not weak && (s.stats proc == old)
    then (true, record s { stats = update s.stats proc new })
    else (false, s)

-- `csp_netpoll_wait` up to the switch to another process; `timer` is the timer that was set for a
-- timeout, `timeout` a signed number of nanoseconds in 64 bits.
unfoldable pub wait : (running : Ptr) → (fd timeout evt : ℕ) → (timer : Ptr) → Netpoll → Netpoll
wait running fd timeout evt timer s =
    let s1 = record s { stats = update s.stats running stat_waiting } in
    let set_timer = ltb 0 timeout && ltb timeout (2 ^ 63) in
    let w = s1.waiters fd in
    let w1 = record w {
      proc = running;
      waiting_evt = evt;
      timer = if set_timer then timer else null;
    } in
    record s1 { waiters = update s1.waiters fd w1 }

-- The rest of `csp_netpoll_wait`, when the process runs again, with what it returns.
unfoldable pub resume : (running : Ptr) → (fd : ℕ) → Netpoll → ℕ × Netpoll
resume running fd s =
    let w = record (s.waiters fd) { proc = null } in
    (s.stats running, record s { waiters = update s.waiters fd w })

-- `csp_netpoll_on_timeout`: whether the process is run.
unfoldable pub on_timeout : (weak : Bool) → Ptr → Netpoll → Bool × Netpoll
unfolding stat_cas
on_timeout weak proc s = stat_cas weak proc stat_waiting stat_timeout s

-- `mask`: an error or a hang-up counts as both events.
unfoldable pub mask_of : (events : ℕ) → ℕ
mask_of events =
    let m1 = if bit_and events epollin == 0 then 0 else epollin in
    let m2 = if bit_and events epollout == 0 then m1 else bit_or m1 epollout in
    if bit_and events (bit_or epollerr epollhup) == 0
    then m2
    else bit_or m2 (bit_or epollin epollout)

-- The list that a poll builds, `head` to `tail`, with its length and the timers cancelled.
pub record Woken : Type 0 where
  pub head : Ptr
  pub tail : Ptr
  pub len : ℕ
  pub cancelled : List Ptr

-- A process joins the list.
unfoldable pub link_up : Ptr → Woken → Netpoll → Woken × Netpoll
link_up proc l s =
    if l.tail == null
    then (record l { head = proc; tail = proc; len = l.len + 1 }, s)
    else (let h1 = update s.links l.tail (record (s.links l.tail) { next = proc }) in
        let h2 = update h1 proc (record (h1 proc) { pre = l.tail }) in
        (record l { tail = proc; len = l.len + 1 }, record s { links = h2 }))

-- The body of the loop for one event.
unfoldable pub poll_event : (weak : Bool) → Event → Woken → Netpoll → Woken × Netpoll
unfolding stat_cas mask_of link_up
poll_event weak evt l s =
    let w = s.waiters evt.fd in
    if w.proc == null
    then (l, s)
    else if bit_and (mask_of evt.events) w.waiting_evt == 0
    then (l, s)
    else (let (won, s1) = stat_cas weak w.proc stat_waiting stat_avail s in
        let l1 = record l {
          cancelled = if w.timer == null then l.cancelled else l.cancelled ++ w.timer ∷ [];
        } in
        if won then link_up w.proc l1 s1 else (l, s1))

-- `for (int i = 0; i < n; i++)`.
unfoldable pub poll_events : (weak : ℕ → Bool) → List Event → Woken → Netpoll → Woken × Netpoll
unfolding poll_event
poll_events weak [] l s = (l, s)
poll_events weak (evt ∷ evts) l s =
    let (l1, s1) = poll_event (weak 0) evt l s in poll_events (λ i. weak (i + 1)) evts l1 s1

abbrev pub nobody : Woken
nobody = record { head = null; tail = null; len = 0; cancelled = [] }

-- `csp_netpoll_poll`: the number of processes, with the first and the last of them.
unfoldable pub poll : (weak : ℕ → Bool) → List Event → Netpoll → Woken × Netpoll
unfolding poll_events
poll weak evts s = poll_events weak evts nobody s
