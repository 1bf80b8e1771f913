-- ===== src/Proc.antt =====
-- src/proc.h, src/proc.c and the switches of src/core.c: the processor's registers, a process and an
-- anchor as blocks of words by offset, and the assembly that saves and restores them, one
-- instruction after the other. A function gets the block that its pointer argument leads to; the
-- stacks are one memory beside the blocks.
pub mod Frame
pub mod Switch
mod Tests
use shiyanhui_libcsp.Base.{
  ℕ, ◌+◌, ◌-◌, ◌*◌, ◌%◌, ◌^◌, bit_and, Bool, true, false, Option, none, some, ◌==◌, not,
  if◌then◌else◌, update,
}

-- The words of an object by their offset.
abbrev pub Block : Type 0
Block = ℕ → ℕ

-- The registers that the switches use, and the words of the stacks by their address.
pub record Machine : Type 0 where
  pub mxcsr : ℕ
  pub x87cw : ℕ
  pub rsp : ℕ
  pub rbp : ℕ
  pub rip : ℕ
  pub rax : ℕ
  pub rbx : ℕ
  pub r12 : ℕ
  pub r13 : ℕ
  pub r14 : ℕ
  pub r15 : ℕ
  pub rdi : ℕ
  pub rsi : ℕ
  pub rdx : ℕ
  pub rcx : ℕ
  pub r8 : ℕ
  pub r9 : ℕ
  pub stack : ℕ → ℕ

-- `push`, of a register or, in a call, of the address behind it.
abbrev pub push : ℕ → Machine → Machine
push word m =
    let top = (m.rsp + 2 ^ 64 - 8) % 2 ^ 64 in
    record m { rsp = top; stack = update m.stack top word }

-- `retq`.
abbrev pub ret : Machine → Machine
ret m = record m { rip = m.stack m.rsp; rsp = (m.rsp + 8) % 2 ^ 64 }

-- `csp_proc_save`.
unfoldable pub save : Machine → Block → Block
save m b =
    let b1 = update b 0x18 m.mxcsr in
    let b2 = update b1 0x1c m.x87cw in
    let b3 = update b2 0x20 m.rsp in
    let b4 = update b3 0x28 m.rbp in
    let b5 = update b4 0x30 m.rbx in
    let b6 = update b5 0x38 m.r12 in
    let b7 = update b6 0x40 m.r13 in let b8 = update b7 0x48 m.r14 in update b8 0x50 m.r15

-- The four loads at the head of `csp_proc_restore`.
unfoldable pub load_stack : Block → Machine → Machine
load_stack b m = record m {
  mxcsr = b 0x18;
  x87cw = b 0x1c;
  rsp = b 0x20;
  rbp = b 0x28;
  rax = b 0x10;
}

-- The registers that a function keeps for its caller, of a process that has run.
unfoldable pub load_callee_saved : Block → Machine → Machine
load_callee_saved b m = record m {
  rbx = b 0x30;
  r12 = b 0x38;
  r13 = b 0x40;
  r14 = b 0x48;
  r15 = b 0x50;
}

-- The arguments of a new process, %rdi last.
unfoldable pub load_caller_saved : Block → Machine → Machine
load_caller_saved b m = record m {
  rsi = b 0x38;
  rdx = b 0x40;
  rcx = b 0x48;
  r8 = b 0x50;
  r9 = b 0x58;
  rdi = b 0x30;
}

-- `csp_proc_restore`: `test %eax, %eax` reads the low half of %rax.
unfoldable pub restore : Machine → Block → Machine × Block
unfolding load_stack load_callee_saved load_caller_saved
restore m b =
    let m1 = load_stack b m in
    if m1.rax % 2 ^ 32 == 0
    then (ret (load_callee_saved b m1), b)
    else (let b1 = update b 0x10 0 in (ret (load_caller_saved b1 m1), b1))

-- `csp_core_anchor_save`, behind the call: the return address is on the stack.
unfoldable pub anchor_save : Machine → Block → Machine × Block
anchor_save m a =
    let a1 = update a 0x00 m.rbp in
    let a2 = update a1 0x08 m.rsp in
    let m1 = record m { rax = m.stack m.rsp } in
    let a3 = update a2 0x10 m1.rax in let a4 = update a3 0x18 m1.rbx in (ret m1, a4)

-- `csp_core_anchor_load`.
unfoldable pub anchor_load : Block → Machine → Machine
anchor_load a m = record m {
  rbp = a 0x00;
  rsp = a 0x08;
  rax = a 0x10;
  stack = update m.stack (a 0x08) (a 0x10);
  rbx = a 0x18;
}

-- `csp_core_anchor_restore`.
unfoldable pub anchor_restore : Block → Machine → Machine
unfolding anchor_load
anchor_restore a m = ret (anchor_load a m)

-- `csp_core_yield`; `behind` is the address behind its last call, which nothing returns to.
unfoldable pub yield : (behind : ℕ) → Machine → (proc anchor : Block) → Machine × Block
unfolding save anchor_restore
yield behind m proc anchor =
    let proc1 = save m proc in
    let m1 = push m.rbp m in
    let m2 = record m1 { rdi = m1.rsi } in (anchor_restore anchor (push behind m2), proc1)

-- `csp_core_proc_exit_inner`, with `destroy` for the effect of `csp_proc_destroy`, which returns.
unfoldable pub exit_inner : (destroy : Machine → Machine) → (anchor : Block) → Machine → Machine
unfolding anchor_load
exit_inner destroy anchor m = ret (destroy (anchor_load anchor m))

-- `sizeof(csp_proc_t)`: twenty words.
abbrev pub proc_size : ℕ
proc_size = 20 * 8

-- The fields of a fresh process that `csp_proc_new` sets.
pub record Proc : Type 0 where
  pub addr : ℕ
  pub base : ℕ
  pub borned_pid : ℕ
  pub is_new : Bool
  pub rbp : ℕ
  pub stat : ℕ
  pub nchild : ℕ
  pub parent : ℕ
  pub pre : ℕ
  pub next : ℕ

-- `csp_proc_new` on processor `pid`, with the block that the allocator gives for the size, or NULL,
-- where the program exits.
unfoldable pub new : (pid running size : ℕ) → (base : ℕ) → (waited_by_parent : Bool) → Option Proc
new pid running size base waited_by_parent =
    let proc = (base + size + 2 ^ 64 - proc_size) % 2 ^ 64 in
    let odd = not (bit_and proc 0x0f == 0) in
    let rbp = (proc + 2 ^ 64 - (if odd then 1 * 2 ^ 3 else 0)) % 2 ^ 64 in
    let parent = if waited_by_parent then running else 0 in
    if base == 0
    then none
    else some (record {
      addr = proc;
      base = base;
      borned_pid = pid;
      is_new = true;
      rbp = rbp;
      stat = 0;
      nchild = 0;
      parent = parent;
      pre = 0;
      next = 0;
    })
