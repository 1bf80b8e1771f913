-- ===== src/Proc/Switch.antt =====
-- The switches of src/proc.c and src/core.c as functions that return: csp_core_yield comes back from
-- csp_proc_restore as from a call, and csp_core_anchor_save from csp_core_anchor_restore.
use shiyanhui_libcsp.Base.{
  ℕ, sym, ◌+◌, ◌-◌, ◌%◌, ◌^◌, ◌≤◌, ◌<◌, ◌≡◌, ◌≢◌, refl, arith, ne→==, eq→==,
}
use shiyanhui_libcsp.Proc.{
  Block, Machine, save, restore, load_stack, load_callee_saved, load_caller_saved, anchor_save,
  anchor_load, anchor_restore, yield,
}

-- `m'` is where a function called at `m` has returned to, with all that it keeps for its caller.
pub record Returned (m m' : Machine) : Type 0 where
  pub rip : m'.rip ≡ m.stack m.rsp
  pub rsp : m'.rsp ≡ (m.rsp + 8) % 2 ^ 64
  pub rbp : m'.rbp ≡ m.rbp
  pub rbx : m'.rbx ≡ m.rbx
  pub r12 : m'.r12 ≡ m.r12
  pub r13 : m'.r13 ≡ m.r13
  pub r14 : m'.r14 ≡ m.r14
  pub r15 : m'.r15 ≡ m.r15
  pub mxcsr : m'.mxcsr ≡ m.mxcsr
  pub x87cw : m'.x87cw ≡ m.x87cw

-- A process that has run before and yields at `m` is resumed by csp_proc_restore on any machine
-- whose stack still has the return address: csp_core_yield returns, with every register that a
-- function keeps, and the process stays one that has run.
pub yield-restore :
    (behind : ℕ) (m m' : Machine) (proc anchor : Block)
    → proc 0x10 ≡ 0
    → m'.stack m.rsp ≡ m.stack m.rsp
    → let b = (yield behind m proc anchor).1 in
      Returned m (restore m' b).0 × ((restore m' b).1 0x10 ≡ 0)
unfolding yield save restore load_stack load_callee_saved
yield-restore behind m m' proc anchor old kept = rw (eq→== (proc 0x10 % 2 ^ 32) 0 (omega arith)) (
  record {
    rip = kept;
    rsp = refl;
    rbp = refl;
    rbx = refl;
    r12 = refl;
    r13 = refl;
    r14 = refl;
    r15 = refl;
    mxcsr = refl;
    x87cw = refl;
  },
  old,
)

-- `m'` is where csp_core_anchor_save, called at `mc`, has returned to, with the registers that
-- csp_core_run uses behind it.
pub record Anchored (mc m' : Machine) : Type 0 where
  pub rip : m'.rip ≡ mc.stack mc.rsp
  pub rsp : m'.rsp ≡ (mc.rsp + 8) % 2 ^ 64
  pub rbp : m'.rbp ≡ mc.rbp
  pub rbx : m'.rbx ≡ mc.rbx

-- A process that yields at `m` to the anchor that csp_core_anchor_save took at `mc` continues behind
-- that call, also where the slot of its return address was overwritten meanwhile. Of the stack
-- above the process's stack pointer no word changes, its return address included, but that slot,
-- which has the return address again.
yield-anchor :
    (behind : ℕ) (mc m : Machine) (proc anchor : Block)
    → 16 ≤ m.rsp
    → m.rsp < 2 ^ 64
    → let m' = (yield behind m proc (anchor_save mc anchor).1).0 in
      Anchored mc m'
      × (m'.stack mc.rsp ≡ mc.stack mc.rsp)
      × ((a : ℕ) → m.rsp ≤ a → a ≢ mc.rsp → m'.stack a ≡ m.stack a)
unfolding yield anchor_save anchor_restore anchor_load
yield-anchor behind mc m proc anchor low high = (
  record { rip = rw (eq→== mc.rsp mc.rsp refl) refl; rsp = refl; rbp = refl; rbx = refl },
  rw (eq→== mc.rsp mc.rsp refl) refl,
  λ a le ne.
      let first : (m.rsp + 2 ^ 64 - 8) % 2 ^ 64 ≢ a = omega arith in
      let second : ((m.rsp + 2 ^ 64 - 8) % 2 ^ 64 + 2 ^ 64 - 8) % 2 ^ 64 ≢ a = omega arith in
      rw
        (
          ne→== mc.rsp a (λ e. ne (sym e)),
          ne→== ((m.rsp + 2 ^ 64 - 8) % 2 ^ 64) a first,
          ne→== (((m.rsp + 2 ^ 64 - 8) % 2 ^ 64 + 2 ^ 64 - 8) % 2 ^ 64) a second,
        )
        refl,
)

-- What csp_proc_restore does with a process that has not run: it starts at the address on top of
-- its stack, with the six arguments in their registers.
pub record Started (b : Block) (m : Machine) (r : Machine × Block) : Type 0 where
  pub rip : r.0.rip ≡ m.stack (b 0x20)
  pub rsp : r.0.rsp ≡ (b 0x20 + 8) % 2 ^ 64
  pub rbp : r.0.rbp ≡ b 0x28
  pub rdi : r.0.rdi ≡ b 0x30
  pub rsi : r.0.rsi ≡ b 0x38
  pub rdx : r.0.rdx ≡ b 0x40
  pub rcx : r.0.rcx ≡ b 0x48
  pub r8 : r.0.r8 ≡ b 0x50
  pub r9 : r.0.r9 ≡ b 0x58
  pub stack : r.0.stack ≡ m.stack
  pub ran : r.1 0x10 ≡ 0
  pub others : (i : ℕ) → i ≢ 0x10 → r.1 i ≡ b i

-- csp_proc_restore of a process that has not run starts it with its arguments, and from then on
-- it is one that has run; nothing else of it changes.
pub restore-starts : (m : Machine) (b : Block) → b 0x10 ≡ 1 → Started b m (restore m b)
unfolding restore load_stack load_caller_saved
restore-starts m b new = rw (ne→== (b 0x10 % 2 ^ 32) 0 (omega arith)) (record {
  rip = refl;
  rsp = refl;
  rbp = refl;
  rdi = refl;
  rsi = refl;
  rdx = refl;
  rcx = refl;
  r8 = refl;
  r9 = refl;
  stack = refl;
  ran = refl;
  others = λ i ne. rw (ne→== 0x10 i (λ e. ne (sym e))) refl;
})
