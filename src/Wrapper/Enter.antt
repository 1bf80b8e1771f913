-- ===== src/Wrapper/Enter.antt =====
-- A process that a wrapper of plugin/proc.hpp has made and csp_proc_restore of src/proc.c runs.
use shiyanhui_libcsp.Base.{
  ℕ, ◌+◌, ◌-◌, ◌*◌, ◌%◌, ◌^◌, ◌≤◌, ◌<◌, ◌≡◌, refl, ap, ◌∙◌, arith, [], ◌∷◌, get_or, take,
}
use shiyanhui_libcsp.Proc.{Machine, restore}
use shiyanhui_libcsp.Proc.Switch.{restore-starts}
use shiyanhui_libcsp.Wrapper.{BuildType, in_regs, rsv_num, build_fn_body}
use shiyanhui_libcsp.Wrapper.Run.{Cpu, Fresh, run}
use shiyanhui_libcsp.Wrapper.Args.{reg_args, field_args}
use shiyanhui_libcsp.Wrapper.Start.{build_fn_body-Built}

-- The machine is at the label `0` of the wrapper, as if the wrapper's caller called there.
pub record Entered (entry frame n : ℕ) (c : Cpu) (m : Machine) : Type 0 where
  pub rip : m.rip ≡ entry
  pub aligned : m.rsp % 16 ≡ 0
  pub rbp : m.rbp ≡ frame
  pub in_order :
      take (in_regs n) (m.rdi ∷ m.rsi ∷ m.rdx ∷ m.rcx ∷ m.r8 ∷ m.r9 ∷ [])
      ≡ take (in_regs n) (reg_args c.regs)
  pub on_stack : (i : ℕ) → i < n - 6 → m.stack (m.rsp + i * 8) ≡ get_or c.words (i + 1) 0
  pub below : m.rsp + (n - 6) * 8 ≤ frame

-- The process that a wrapper for `n` arguments makes, called as in build_fn_body-Built with a process
-- that is marked as new, is started by csp_proc_restore at the wrapper's label with an aligned
-- stack, with the arguments in registers in theirs, and with those on the stack in order from
-- %rsp up to at most the frame pointer: as the call of the wrapped function expects them.
pub restore-Entered :
    (f : Fresh) (entry : ℕ) (build : BuildType) (id n : ℕ) (c : Cpu) (m : Machine)
    → c.rsp % 16 ≡ 8
    → 64 ≤ c.rsp
    → c.rsp + 8 < 2 ^ 64
    → f.blocks f.address 0x28 % 16 ≡ 0
    → rsv_num n * 8 ≤ f.blocks f.address 0x28
    → f.blocks f.address 0x28 < 2 ^ 64
    → f.blocks f.address 0x10 ≡ 1
    → let d = run f entry (build_fn_body build id n).0 c in
      m.stack ≡ d.stack
      → Entered entry (f.blocks f.address 0x28) n c (restore m (d.blocks f.address)).0
restore-Entered f entry build id n c m a lo hi fa room fhi is_new same =
    let d = run f entry (build_fn_body build id n).0 c in
    let b = build_fn_body-Built f entry build id n c a lo hi fa room fhi in
    let s = restore-starts m (d.blocks f.address) (b.marked ∙ is_new) in
    let r = (restore m (d.blocks f.address)).0 in
    let top : r.rsp ≡ b.sp + 8 = omega (arith, s.rsp, b.sp_stored, b.inside, b.sp_aligned) in
    let loaded : (r.rdi ∷ r.rsi ∷ r.rdx ∷ r.rcx ∷ r.r8 ∷ r.r9 ∷ [])
        ≡ field_args (d.blocks f.address) =
      rw (s.rdi, s.rsi, s.rdx, s.rcx, s.r8, s.r9) refl in
    record {
      rip =
          s.rip ∙ ap (λ t. t ((d.blocks f.address) 0x20)) same ∙ ap d.stack b.sp_stored ∙ b.starts;
      aligned = omega (arith, b.sp_aligned);
      rbp = s.rbp ∙ b.frame;
      in_order = ap (take (in_regs n)) loaded ∙ b.reg_kept;
      on_stack = λ i lt.
          let place : r.rsp + i * 8 ≡ b.sp + (i + 1) * 8 = omega arith in
          ap (λ t. t (r.rsp + i * 8)) (s.stack ∙ same)
          ∙ ap d.stack place
          ∙ b.stack_kept (i + 1) (omega arith) (omega arith);
      below = omega (arith, b.inside, b.sp_aligned);
    }
