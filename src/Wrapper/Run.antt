-- ===== src/Wrapper/Run.antt =====
-- What the instructions of a wrapper do. csp_proc_new gives the address of any process block in %rax,
-- any memory and any values in the other registers that a call may change; the words from %rsp up are the caller's and stay.
use shiyanhui_libcsp.Base.{
  ℕ, ◌+◌, ◌-◌, ◌/◌, ◌%◌, ◌^◌, List, [], ◌∷◌, ◌++◌, get_or, drop, update, if◌then◌else◌, ◌==◌, ◌&&◌,
  ◌≡◌, refl,
}
use shiyanhui_libcsp.Wrapper.{
  Reg, rax, rdi, rsi, rdx, rcx, r8, r9, rbp, Callee, csp_proc_new, csp_sched_put_proc,
  csp_sched_put_timer, wrapped, exit, csp_core_proc_exit, Instr, push, pop, pop_field, load_imm,
  move, save_mxcsr, save_x87cw, load_field, store_field, load_word, sub_rax, store_word, lea_entry,
  call, retq,
}

-- A call that was made: the callee, the stack pointer at the call instruction, %rdi and %rsi.
pub record Call : Type 0 where
  pub callee : Callee
  pub at : ℕ
  pub first : ℕ
  pub second : ℕ

-- `words` stand at `rsp` and above; `blocks` are the words of each process block by its
-- address and the offset in it, `stack` is the new process's stack.
pub record Cpu : Type 0 where
  pub regs : Reg → ℕ
  pub mxcsr : ℕ
  pub x87cw : ℕ
  pub rsp : ℕ
  pub words : List ℕ
  pub blocks : (address offset : ℕ) → ℕ
  pub stack : ℕ → ℕ
  pub calls : List Call

abbrev pub set_reg : Reg → ℕ → (Reg → ℕ) → Reg → ℕ
set_reg rax v f rax = v
set_reg rdi v f rdi = v
set_reg rsi v f rsi = v
set_reg rdx v f rdx = v
set_reg rcx v f rcx = v
set_reg r8 v f r8 = v
set_reg r9 v f r9 = v
set_reg rbp v f rbp = v
set_reg r v f s = f s

-- A call may change every register but %rbp.
abbrev pub clobber : (Reg → ℕ) → (Reg → ℕ) → Reg → ℕ
clobber junk f rbp = f rbp
clobber junk f rax = junk rax
clobber junk f rdi = junk rdi
clobber junk f rsi = junk rsi
clobber junk f rdx = junk rdx
clobber junk f rcx = junk rcx
clobber junk f r8 = junk r8
clobber junk f r9 = junk r9

-- A word is stored at an offset of the block at an address.
abbrev pub store : (ℕ → ℕ → ℕ) → (address offset v : ℕ) → ℕ → ℕ → ℕ
store m a i v b j = if (i == j) && (a == b) then v else m b j

-- What csp_proc_new leaves: the registers, the address of the new process and all blocks.
pub record Fresh : Type 0 where
  pub junk : Reg → ℕ
  pub address : ℕ
  pub blocks : (address offset : ℕ) → ℕ

abbrev pub called : Fresh → Callee → Cpu → Cpu
called f csp_proc_new c = record c {
  regs = set_reg rax f.address (clobber f.junk c.regs);
  blocks = f.blocks;
}
called f csp_sched_put_proc c = record c { regs = clobber f.junk c.regs }
called f csp_sched_put_timer c = record c { regs = clobber f.junk c.regs }
called f wrapped c = record c { regs = clobber f.junk c.regs }
called f exit c = record c { regs = clobber f.junk c.regs }
called f csp_core_proc_exit c = record c { regs = clobber f.junk c.regs }

abbrev pub noted : Callee → Cpu → Call
noted g c = record { callee = g; at = c.rsp; first = c.regs rdi; second = c.regs rsi }

-- One instruction; `entry` is the address of the label `0`.
abbrev pub exec : (f : Fresh) (entry : ℕ) → Instr → Cpu → Cpu
exec f entry (push r) c = record c {
  rsp = (c.rsp + 2 ^ 64 - 8) % 2 ^ 64;
  words = c.regs r ∷ c.words;
}
exec f entry (pop r) c = record c {
  regs = set_reg r (get_or c.words 0 0) c.regs;
  rsp = (c.rsp + 8) % 2 ^ 64;
  words = drop 1 c.words;
}
exec f entry (pop_field i) c = record c {
  blocks = store c.blocks (c.regs rdi) i (get_or c.words 0 0);
  rsp = (c.rsp + 8) % 2 ^ 64;
  words = drop 1 c.words;
}
exec f entry (load_imm v r) c = record c { regs = set_reg r v c.regs }
exec f entry (move r s) c = record c { regs = set_reg s (c.regs r) c.regs }
exec f entry save_mxcsr c = record c { blocks = store c.blocks (c.regs rdi) 0x18 c.mxcsr }
exec f entry save_x87cw c = record c { blocks = store c.blocks (c.regs rdi) 0x1c c.x87cw }
exec f entry (load_field i) c = record c { regs = set_reg rax (c.blocks (c.regs rdi) i) c.regs }
exec f entry (store_field i) c = record c { blocks = store c.blocks (c.regs rdi) i (c.regs rax) }
exec f entry (load_word i r) c = record c { regs = set_reg r (get_or c.words (i / 8) 0) c.regs }
exec f entry (sub_rax v) c = record c {
  regs = set_reg rax ((c.regs rax + 2 ^ 64 - v) % 2 ^ 64) c.regs;
}
exec f entry (store_word i) c = record c {
  stack = update c.stack ((c.regs rax + i) % 2 ^ 64) (c.regs rsi);
}
exec f entry lea_entry c = record c { regs = set_reg rsi entry c.regs }
exec f entry (call g) c = called f g (record c { calls = c.calls ++ noted g c ∷ [] })
exec f entry retq c = record c { rsp = (c.rsp + 8) % 2 ^ 64; words = drop 1 c.words }

-- The instructions one after the other; a return is the last of the caller's part.
abbrev pub run : (f : Fresh) (entry : ℕ) → List Instr → Cpu → Cpu
run f entry [] c = c
run f entry (i ∷ is) c = run f entry is (exec f entry i c)

pub run-append :
    (f : Fresh) (entry : ℕ) (is js : List Instr) (c : Cpu)
    → run f entry (is ++ js) c ≡ run f entry js (run f entry is c)
run-append f entry [] js c = refl
run-append f entry (i ∷ is) js c = run-append f entry is js (exec f entry i c)
