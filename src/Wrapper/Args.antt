-- ===== src/Wrapper/Args.antt =====
-- The part of a wrapper up to the arguments in registers, build_fn_body of plugin/proc.hpp.
use shiyanhui_libcsp.Base.{
  ℕ, zero, suc, ◌+◌, ◌-◌, ◌*◌, ◌%◌, ◌^◌, ◌≤◌, ◌<◌, ◌≡◌, refl, arith, List, [], ◌∷◌, ◌++◌,
  if◌then◌else◌, get_or, take, lt→ltb, ltb-false, eq→==,
}
use shiyanhui_libcsp.Wrapper.{
  Reg, rdi, rsi, rdx, rcx, r8, r9, rbp, csp_proc_new, BuildType, is_sync, need_padding, in_regs,
  pops, begin_code, push_args,
}
use shiyanhui_libcsp.Wrapper.Run.{Cpu, Fresh, run}

-- The arguments in registers, and the fields that csp_proc_restore loads them from.
abbrev pub reg_args : (Reg → ℕ) → List ℕ
reg_args f = f rdi ∷ f rsi ∷ f rdx ∷ f rcx ∷ f r8 ∷ f r9 ∷ []

abbrev pub field_args : (ℕ → ℕ) → List ℕ
field_args p = p 0x30 ∷ p 0x38 ∷ p 0x40 ∷ p 0x48 ∷ p 0x50 ∷ p 0x58 ∷ []

-- The stack pointer after pushes and after pops of words.
abbrev pub pushed : ℕ → ℕ → ℕ
pushed zero r = r
pushed (suc n) r = (pushed n r + 2 ^ 64 - 8) % 2 ^ 64

abbrev pub popped : ℕ → ℕ → ℕ
popped zero r = r
popped (suc n) r = (popped n r + 8) % 2 ^ 64

pub pushed_lem : (n r : ℕ) → n * 8 ≤ r → r < 2 ^ 64 → pushed n r ≡ r - n * 8
pushed_lem zero r lo hi = omega arith
pushed_lem (suc n) r lo hi = omega (arith, pushed_lem n r (omega arith) hi)

pub popped_lem : (n r : ℕ) → r + n * 8 < 2 ^ 64 → popped n r ≡ r + n * 8
popped_lem zero r hi = omega arith
popped_lem (suc n) r hi = omega (arith, popped_lem n r (omega arith))

-- The words at %rsp with the padding, which is one word or none.
abbrev pub padded : (args_len : ℕ) → Cpu → List ℕ
padded args_len c = if need_padding args_len then c.regs rbp ∷ c.words else c.words

abbrev pub padding : (args_len : ℕ) → ℕ
padding args_len = if need_padding args_len then 1 else 0

-- What the wrapper has done when all arguments in registers are in the process.
abbrev pub Ready : (f : Fresh) (build : BuildType) (id args_len : ℕ) (c d : Cpu) → Type 0
Ready f build id args_len c d =
    (d.words ≡ padded args_len c)
    × (d.regs rbp ≡ c.regs rbp)
    × (take (in_regs args_len) (field_args (d.blocks f.address))
        ≡ take (in_regs args_len) (reg_args c.regs))
    × (0 < args_len
        → args_len ≤ 6
        → d.blocks f.address (0x30 + (args_len - 1) * 2 ^ 3)
          ≡ get_or (reg_args c.regs) (args_len - 1) 0)
    × (d.blocks f.address 0x28 ≡ f.blocks f.address 0x28)
    × (d.blocks f.address 0x18 ≡ c.mxcsr)
    × (d.blocks f.address 0x1c ≡ c.x87cw)
    × (d.rsp ≡ popped (in_regs args_len) (pushed (padding args_len + in_regs args_len) c.rsp))
    × (d.calls
        ≡ c.calls
          ++ record {
            callee = csp_proc_new;
            at = pushed (padding args_len + in_regs args_len) c.rsp;
            first = id;
            second = is_sync build;
          }
            ∷ [])
    × (d.blocks f.address 0x10 ≡ f.blocks f.address 0x10)
    × (d.regs rdi ≡ f.address)

-- The state behind the pops.
abbrev pub begun : (f : Fresh) (entry : ℕ) (build : BuildType) (id args_len : ℕ) (c : Cpu) → Cpu
begun f entry build id args_len c =
    run f entry (take (in_regs args_len) pops) (run f entry (begin_code build id args_len) c)

-- With more arguments than registers.
many-Ready :
    (f : Fresh) (entry : ℕ) (build : BuildType) (id args_len : ℕ) (c : Cpu)
    → 6 < args_len
    → Ready f build id args_len c (begun f entry build id args_len c)
unfolding begin_code push_args
many-Ready f entry build id n c more =
    rw (lt→ltb 6 n more, ltb-false n 6 (omega arith), eq→== f.address f.address refl)
      (refl, refl, refl, λ p q. absurd (omega arith), refl, refl, refl, refl, refl, refl, refl)

pub begin-Ready :
    (f : Fresh) (entry : ℕ) (build : BuildType) (id args_len : ℕ) (c : Cpu)
    → Ready f build id args_len c (begun f entry build id args_len c)
unfolding begin_code push_args
begin-Ready f entry build id zero c =
    rw (eq→== f.address f.address refl)
      (refl, refl, refl, λ p q. absurd (omega arith), refl, refl, refl, refl, refl, refl, refl)
begin-Ready f entry build id (suc zero) c =
    rw (eq→== f.address f.address refl)
      (refl, refl, refl, λ p q. refl, refl, refl, refl, refl, refl, refl, refl)
begin-Ready f entry build id (suc (suc zero)) c =
    rw (eq→== f.address f.address refl)
      (refl, refl, refl, λ p q. refl, refl, refl, refl, refl, refl, refl, refl)
begin-Ready f entry build id (suc (suc (suc zero))) c =
    rw (eq→== f.address f.address refl)
      (refl, refl, refl, λ p q. refl, refl, refl, refl, refl, refl, refl, refl)
begin-Ready f entry build id (suc (suc (suc (suc zero)))) c =
    rw (eq→== f.address f.address refl)
      (refl, refl, refl, λ p q. refl, refl, refl, refl, refl, refl, refl, refl)
begin-Ready f entry build id (suc (suc (suc (suc (suc zero))))) c =
    rw (eq→== f.address f.address refl)
      (refl, refl, refl, λ p q. refl, refl, refl, refl, refl, refl, refl, refl)
begin-Ready f entry build id (suc (suc (suc (suc (suc (suc zero)))))) c =
    rw (eq→== f.address f.address refl)
      (refl, refl, refl, λ p q. refl, refl, refl, refl, refl, refl, refl, refl)
begin-Ready f entry build id (suc (suc (suc (suc (suc (suc (suc k))))))) c =
    many-Ready f entry build id _ c (omega arith)
