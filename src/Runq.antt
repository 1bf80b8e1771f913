-- ===== src/Runq.antt =====
-- src/runq.c and src/runq.h: the local run queue, a doubly linked list through the `pre` and
-- `next` fields of the processes (src/proc.h). A process is its address; the store of the two
-- fields is passed from call to call. An access through NULL is a fault, `none`.
pub mod Chain
pub mod Refine
pub mod Popm
pub mod Join
mod Tests
use shiyanhui_libcsp.Base.{
  ℕ, zero, suc, ◌+◌, ◌-◌, ◌%◌, ◌^◌, bit_and, ◌==◌, if◌then◌else◌, Option, none, some, ◌>>=◌, update,
}

abbrev pub Ptr : Type 0
Ptr = ℕ

abbrev pub null : Ptr
null = 0

-- The queue links of a `csp_proc_t`.
pub record Link : Type 0 where
  pub pre : Ptr
  pub next : Ptr

abbrev pub Links : Type 0
Links = Ptr → Link

-- `csp_lrunq_t`. `len` is a `size_t`; `poped_times` is the bit pattern of an `int64_t`.
pub record Lrunq : Type 0 where
  pub head : Ptr
  pub tail : Ptr
  pub len : ℕ
  pub poped_times : ℕ

-- `p->next = q` and `p->pre = q`.
unfoldable pub set_next : Ptr → Ptr → Links → Option Links
set_next p q h = if p == null then none else some (update h p (record (h p) { next = q }))

unfoldable pub set_pre : Ptr → Ptr → Links → Option Links
set_pre p q h = if p == null then none else some (update h p (record (h p) { pre = q }))

-- `p->next`.
unfoldable pub get_next : Ptr → Links → Option Ptr
get_next p h = if p == null then none else some (h p).next

unfoldable pub get_pre : Ptr → Links → Option Ptr
get_pre p h = if p == null then none else some (h p).pre

-- `csp_lrunq_new`, where malloc succeeds.
abbrev pub new : Lrunq
new = record { head = null; tail = null; len = 0; poped_times = 0 }

-- The macro `csp_lrunq_set`.
abbrev pub set : Lrunq → ℕ → Ptr → Ptr → Lrunq
set q n start end = record q { head = start; tail = end; len = n }

unfoldable pub push : Lrunq → Ptr → Links → Option (Lrunq × Links)
unfolding set_next set_pre
push q proc h =
    if q.tail == null
    then some (record q { head = proc; tail = proc; len = (q.len + 1) % 2 ^ 64 }, h)
    else do
      h1 ← set_next q.tail proc h
      h2 ← set_pre proc q.tail h1
      some (record q { tail = proc; len = (q.len + 1) % 2 ^ 64 }, h2)

unfoldable pub push_front : Lrunq → Ptr → Links → Option (Lrunq × Links)
unfolding set_next set_pre
push_front q proc h =
    if q.head == null
    then some (record q { head = proc; tail = proc; len = (q.len + 1) % 2 ^ 64 }, h)
    else do
      h1 ← set_next proc q.head h
      h2 ← set_pre q.head proc h1
      some (record q { head = proc; len = (q.len + 1) % 2 ^ 64 }, h2)

-- `csp_lrunq_ok` with the process, `csp_lrunq_failed` and `csp_lrunq_missed`.
pub data Popped : Type 0 where
  ok : Ptr → Popped
  failed : Popped
  missed : Popped

-- The part of `csp_lrunq_try_pop_front` that unlinks the head.
unfoldable pub unlink_head : Lrunq → Links → Option (Lrunq × Links)
unfolding set_next set_pre get_next
unlink_head q h = if q.head == q.tail then some (record q { head = null; tail = null }, h) else do
  n ← get_next q.head h
  h1 ← set_pre n null h
  h2 ← set_next q.head null h1
  some (record q { head = n }, h2)

unfoldable pub try_pop_front : Lrunq → Links → Option (Popped × Lrunq × Links)
try_pop_front q h =
    if bit_and q.poped_times 0x1f == 0x1f
    then some (missed, record q { poped_times = (q.poped_times + 1) % 2 ^ 64 }, h)
    else if q.head == null
    then some (failed, q, h)
    else do
      (q1, h1) ← unlink_head q h
      some (
        ok q.head,
        record q1 {
          len = (q1.len + 2 ^ 64 - 1) % 2 ^ 64;
          poped_times = (q1.poped_times + 1) % 2 ^ 64;
        },
        h1,
      )

-- `for (int i = 0; i < n; i++) lrunq->head = lrunq->head->next;`
unfoldable pub advance : ℕ → Ptr → Links → Option Ptr
unfolding get_next
advance zero p h = some p
advance (suc n) p h = get_next p h >>= λ q. advance n q h

-- The caller guarantees `0 < n <= len`. The result is the first and the last process taken.
unfoldable pub popm_front : Lrunq → ℕ → Links → Option ((Ptr × Ptr) × Lrunq × Links)
unfolding set_next set_pre get_pre
popm_front q n h =
    let left = (q.len + 2 ^ 64 - n) % 2 ^ 64 in
    if left == 0
    then some ((q.head, q.tail), record q { head = null; tail = null; len = left }, h)
    else do
      p ← advance n q.head h
      e ← get_pre p h
      h1 ← set_pre p null h
      h2 ← set_next e null h1
      some ((q.head, e), record q { head = p; len = left }, h2)
