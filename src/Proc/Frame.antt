-- ===== src/Proc/Frame.antt =====
-- Where csp_proc_new of src/proc.c puts a process in its block of memory.
use shiyanhui_libcsp.Base.{
  ℕ, ◌+◌, ◌-◌, ◌%◌, ◌^◌, ◌≤◌, ◌<◌, ◌≡◌, refl, arith, ◌==◌, ne→==, Bool, bit_and, bit_and-mask, some,
  Bool-cases, inl, inr, if◌then◌else◌,
}
use shiyanhui_libcsp.Proc.{Proc, new, proc_size}

-- The process stands at the end of the `size` bytes at `base`, behind its stack, whose first frame
-- pointer is aligned.
pub record Framed (base size running : ℕ) (waited : Bool) (p : Proc) : Type 0 where
  pub base_kept : p.base ≡ base
  pub end : p.addr + proc_size ≡ base + size
  pub aligned : p.rbp % 16 ≡ 0
  pub below : p.rbp ≤ p.addr
  pub near : p.addr ≤ p.rbp + 8
  pub inside : base ≤ p.rbp
  pub parent : p.parent ≡ (if waited then running else 0)

-- csp_proc_new in a block of whole words at an address of whole words, large enough for a process and
-- one word, gives a process at the end of the block, with a frame pointer that is a multiple of
-- 16, at most 8 below the process and in the block.
pub new-Framed :
    (pid running size base : ℕ) (waited : Bool)
    → 0 < base
    → base % 8 ≡ 0
    → size % 8 ≡ 0
    → proc_size + 8 ≤ size
    → base + size < 2 ^ 64
    → (p : Proc) × (new pid running size base waited ≡ some p) × Framed base size running waited p
unfolding new
new-Framed pid running size base waited pos a b large fits =
    let proc = (base + size + 2 ^ 64 - proc_size) % 2 ^ 64 in
    let at_end : proc ≡ base + size - proc_size = omega arith in
    let bits : bit_and proc 0x0f ≡ proc % 16 = bit_and-mask 4 proc in
    rw (ne→== base 0 (omega arith)) (elim (Bool-cases (bit_and proc 0x0f == 0)) [
      | inl even ↦ rw even (
        _,
        refl,
        record {
          base_kept = refl;
          end = omega arith;
          aligned = ground arith;
          below = omega arith;
          near = omega arith;
          inside = omega arith;
          parent = refl;
        },
      )
      | inr odd ↦ rw odd (
        _,
        refl,
        record {
          base_kept = refl;
          end = omega arith;
          aligned = ground arith;
          below = omega arith;
          near = omega arith;
          inside = omega arith;
          parent = refl;
        },
      )
    ])
