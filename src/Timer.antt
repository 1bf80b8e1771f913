-- ===== src/Timer.antt =====
-- src/timer.c: the heap of timers of one processor, the earliest first. The array `procs` holds
-- processes (addresses); the fields `timer.when`, `timer.idx` and `timer.token` of the processes
-- (src/proc.h) are three maps. Times are not negative.
pub mod Order
pub mod Up
pub mod Down
pub mod Del
pub mod Put
pub mod Poll
pub mod Clock
pub mod Heaps
pub mod Batches
pub mod Collect
pub mod Sweep
pub mod Due
mod Tests
use shiyanhui_libcsp.Base.{
  ℕ, zero, suc, ◌+◌, ◌-◌, ◌*◌, ◌/◌, ◌%◌, ◌^◌, Bool, true, false, ◌&&◌, List, [], ◌∷◌, Option, none,
  some, ◌>>=◌, ◌==◌, ltb, leb, if◌then◌else◌, update,
}

abbrev pub Ptr : Type 0
Ptr = ℕ

-- What the loops change.
pub record Slots : Type 0 where
  pub procs : ℕ → Ptr
  pub idx : Ptr → ℕ
  pub when : Ptr → ℕ

-- `csp_timer_heap_t`. `room` is the number of pointers that fit into the block at `procs`; `token`
-- is the bit pattern of an int64_t, `tokens` the tokens of the processes.
pub record Heap : Type 0 where
  pub cap : ℕ
  pub len : ℕ
  pub room : ℕ
  pub slots : Slots
  pub token : ℕ
  pub tokens : Ptr → ℕ

abbrev pub default_cap : ℕ
default_cap = 64

-- sizeof(csp_proc_t *).
abbrev pub pointer_size : ℕ
pointer_size = 8

abbrev pub key : Slots → ℕ → ℕ
key s i = s.when (s.procs i)

-- `csp_timer_heap_lte`.
abbrev pub lte : Slots → ℕ → ℕ → Bool
lte s i j = leb (key s i) (key s j)

-- The two `csp_swap`s: of the array entries, then of the indices of the processes there.
unfoldable pub swap : Slots → ℕ → ℕ → Slots
swap s i j =
    let procs = update (update s.procs i (s.procs j)) j (s.procs i) in
    let idx = update s.idx (procs i) (s.idx (procs j)) in
    record s { procs = procs; idx = update idx (procs j) (s.idx (procs i)) }

abbrev pub father : ℕ → ℕ
father i = (i - 1) / 2

-- `csp_timer_heap_shift_up`, on fuel above the index.
unfoldable pub up_loop : ℕ → Slots → ℕ → Slots
up_loop zero s i = s
up_loop (suc fuel) s i =
    let rest = up_loop fuel (swap s i (father i)) (father i) in
    if ltb 0 i then (if lte s (father i) i then s else rest) else s

unfoldable pub shift_up : Slots → ℕ → Slots
shift_up s i = up_loop (i + 1) s i

-- The son that the loop of `csp_timer_heap_del` compares with.
unfoldable pub son : (len : ℕ) → Slots → ℕ → ℕ
son len s i = if ltb (2 * i + 2) len && lte s (2 * i + 2) (2 * i + 1) then 2 * i + 2 else 2 * i + 1

-- The loop of `csp_timer_heap_del`, on fuel above `len - i`.
unfoldable pub down_loop : ℕ → (len : ℕ) → Slots → ℕ → Slots
down_loop zero len s i = s
down_loop (suc fuel) len s i =
    let rest = down_loop fuel len (swap s i (son len s i)) (son len s i) in
    if ltb (2 * i + 1) len then (if lte s i (son len s i) then s else rest) else s

-- `csp_timer_heap_del` behind its early return, `len` already decreased.
unfoldable pub refill : (len : ℕ) → Slots → ℕ → Slots
refill len s i =
    let last = s.procs len in
    let s1 = record s { procs = update s.procs i last; idx = update s.idx last i } in
    if ltb 0 i && lte s1 i (father i) then shift_up s1 i else down_loop (len + 1) len s1 i

-- `csp_timer_heap_del`.
unfoldable pub del : Heap → Ptr → Heap
del h proc =
    let i = h.slots.idx proc in
    let len = h.len - 1 in
    if i == len
    then record h { len = len }
    else record h { len = len; slots = refill len h.slots i }

-- The growth in `csp_timer_heap_put`: realloc is given `cap` as the number of bytes. Where it
-- succeeds it keeps the pointers that fit.
unfoldable pub grow : Heap → Heap
grow h = record h { cap = h.cap * 2; room = h.cap * 2 / pointer_size }

-- `csp_timer_heap_put` behind the growth: `none` is a write behind the end of the block.
unfoldable pub append : Heap → Ptr → Option Heap
append h proc =
    if ltb h.len h.room
    then some (record h {
      len = h.len + 1;
      slots =
          shift_up
            (record h.slots {
              procs = update h.slots.procs h.len proc;
              idx = update h.slots.idx proc h.len;
            })
            h.len;
      tokens = update h.tokens proc h.token;
      token = (h.token + 1) % 2 ^ 64;
    })
    else none

unfoldable pub put : Heap → Ptr → Option Heap
unfolding grow
put h proc = append (if h.len == h.cap then grow h else h) proc

-- `csp_timer_heap_init` for a processor; the map `slots` is what malloc and the processes hold.
unfoldable pub init : (pid : ℕ) → Slots → (Ptr → ℕ) → Heap
init pid slots tokens = record {
  cap = default_cap;
  len = 0;
  room = default_cap;
  slots = slots;
  token = pid * 2 ^ 53 % 2 ^ 64;
  tokens = tokens;
}

-- -1 as the bit pattern of an int64_t.
abbrev pub invalid : ℕ
invalid = 2 ^ 64 - 1

-- The loop of `csp_timer_heap_get` at the time `now`, on fuel: the expired timers in order.
unfoldable pub expire : ℕ → Heap → (now : ℕ) → List Ptr × Heap
expire zero h now = ([], h)
expire (suc fuel) h now =
    let top = h.slots.procs 0 in
    let next = del h top in
    let rest = expire fuel (record next { tokens = update next.tokens top invalid }) now in
    if ltb 0 h.len && leb (h.slots.when top) now then (top ∷ rest.0, rest.1) else ([], h)

-- The loop of `csp_timer_heap_get` with the list of processes for its head and tail; the fuel is
-- `len + 1`. Timer/Clock has the whole function.
unfoldable pub get : Heap → (now : ℕ) → List Ptr × Heap
unfolding expire
get h now = expire (h.len + 1) h now

-- `csp_timer_cancel` up to the destruction of the process: the token must be the process's own. The
-- compare-exchange is weak.
unfoldable pub cancel : (weak : Bool) → Heap → Ptr → (token : ℕ) → Bool × Heap
cancel weak h proc token =
    if h.tokens proc == token
    then if weak
      then (false, h)
      else (true, del (record h { tokens = update h.tokens proc invalid }) proc)
    else (false, h)
