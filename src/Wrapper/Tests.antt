-- ===== src/Wrapper/Tests.antt =====
-- A timer's wrapper for seven arguments and the time, which is the eighth.
use shiyanhui_libcsp.Base.{update, ℕ, ◌+◌, ◌*◌, ◌≤◌, ◌≡◌, refl, arith, [], ◌∷◌}
use shiyanhui_libcsp.Wrapper.{
  Reg, rax, rdi, rsi, rdx, rcx, r8, r9, rbp, timer_proc, build_fn_body, begin_code, end_code,
  push_args, copy_args, rsv_num, time_code,
}
use shiyanhui_libcsp.Wrapper.Run.{Cpu, Fresh, run}
use shiyanhui_libcsp.Proc.{Machine, restore}
use shiyanhui_libcsp.Wrapper.Enter.{Entered, restore-Entered}
use shiyanhui_libcsp.Wrapper.Start.{Built, build_fn_body-Built}

abbrev given : Reg → ℕ
given rax = 0
given rdi = 1
given rsi = 2
given rdx = 3
given rcx = 4
given r8 = 5
given r9 = 6
given rbp = 7000

-- The return address and two arguments on the stack.
abbrev caller : Cpu
caller = record {
  regs = given;
  mxcsr = 0x1f80;
  x87cw = 0x37f;
  rsp = 7016;
  words = 99 ∷ 7 ∷ 8 ∷ [];
  blocks = λ b i. 0;
  stack = λ a. 0;
  calls = [];
}

-- csp_proc_new spoils the registers and gives a new process with its frame pointer at 65536.
abbrev fresh : Fresh
fresh = record { junk = λ r. 55; address = 5120; blocks = λ b. update (λ i. 65536) 0x10 1 }

abbrev after : Cpu
unfolding build_fn_body begin_code end_code push_args copy_args rsv_num time_code
after = run fresh 4242 (build_fn_body timer_proc 3 8).0 caller

first_kept : after.blocks 5120 0x30 ≡ 1
unfolding after
first_kept = refl

-- The eighth argument stands second above the stack pointer, and is the time.
eighth_kept : after.stack (after.blocks 5120 0x20 + 16) ≡ 8
unfolding after
eighth_kept = refl

time_kept : after.blocks 5120 0x60 ≡ 8
unfolding after
time_kept = refl

room : rsv_num 8 * 8 ≤ 65536
unfolding rsv_num
room = omega arith

build_fn_body-Built_example :
    Built fresh 4242 timer_proc 3 8 caller (run fresh 4242 (build_fn_body timer_proc 3 8).0 caller)
build_fn_body-Built_example =
    build_fn_body-Built fresh 4242 timer_proc 3 8 caller refl (omega arith) (omega arith) refl room
      (omega arith)

-- Any registers, with the stack that the wrapper has left.
abbrev core : Machine
core = record {
  mxcsr = 0;
  x87cw = 0;
  rsp = 512;
  rbp = 512;
  rip = 1;
  rax = 2;
  rbx = 3;
  r12 = 4;
  r13 = 5;
  r14 = 6;
  r15 = 7;
  rdi = 8;
  rsi = 9;
  rdx = 10;
  rcx = 11;
  r8 = 12;
  r9 = 13;
  stack = (run fresh 4242 (build_fn_body timer_proc 3 8).0 caller).stack;
}

restore-Entered_example :
    Entered 4242 65536 8 caller
      (restore core ((run fresh 4242 (build_fn_body timer_proc 3 8).0 caller).blocks 5120)).0
restore-Entered_example =
    restore-Entered fresh 4242 timer_proc 3 8 caller core refl (omega arith) (omega arith) refl room
      (omega arith) refl refl
