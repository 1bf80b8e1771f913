-- ===== src/Proc/Tests.antt =====
-- Switches between a process and its core, and a new process in two pages.
use shiyanhui_libcsp.Base.{ℕ, ◌+◌, ◌≡◌, refl, arith, some, true}
use shiyanhui_libcsp.Proc.{Block, Machine, yield, restore, Proc, new}
use shiyanhui_libcsp.Proc.Switch.{Returned, yield-restore}
use shiyanhui_libcsp.Proc.Frame.{Framed, new-Framed}

-- A machine with its stack pointer at `top`; each word of the stack is its address and `far`.
abbrev machine : (top far : ℕ) → Machine
machine top far = record {
  mxcsr = 0x1f80;
  x87cw = 0x37f;
  rsp = top;
  rbp = top + 64;
  rip = 1;
  rax = 2;
  rbx = 3;
  r12 = 4;
  r13 = 5;
  r14 = 6;
  r15 = 7;
  rdi = 8;
  rsi = 9;
  rdx = 10;
  rcx = 11;
  r8 = 12;
  r9 = 13;
  stack = λ a. a + far;
}

abbrev ran : Block
ran i = 0

-- The process comes back with its own registers, from a core whose registers differ.
resumed_r12 : (restore (machine 900 5) (yield 77 (machine 4096 5) ran ran).1).0.r12 ≡ 4
unfolding yield restore
resumed_r12 = refl

resumed_rip : (restore (machine 900 5) (yield 77 (machine 4096 5) ran ran).1).0.rip ≡ 4101
unfolding yield restore
resumed_rip = refl

yield-restore_example :
    Returned (machine 4096 5) (restore (machine 900 5) (yield 77 (machine 4096 5) ran ran).1).0
    × ((restore (machine 900 5) (yield 77 (machine 4096 5) ran ran).1).1 0x10 ≡ 0)
yield-restore_example = yield-restore 77 (machine 4096 5) (machine 900 5) ran ran refl refl

new-Framed_example :
    (p : Proc) × (new 2 512 8192 65536 true ≡ some p) × Framed 65536 8192 512 true p
new-Framed_example =
    new-Framed 2 512 8192 65536 true (omega arith) refl refl (omega arith) (omega arith)
