-- ===== src/Wrapper/Parts.antt =====
-- The parts of a wrapper behind the arguments in registers, build_fn_body of plugin/proc.hpp: the
-- copy of the arguments on the stack, and the last call with the return.
use shiyanhui_libcsp.Base.{
  ℕ, zero, suc, ◌+◌, ◌-◌, ◌*◌, ◌/◌, ◌%◌, ◌^◌, ◌≤◌, ◌<◌, ◌≡◌, ◌≢◌, refl, ap, ◌∙◌, arith, List, [],
  ◌∷◌, ◌++◌, Bool, true, false, if◌then◌else◌, get_or, drop, ◌==◌, eq→==, ne→==, Bool-cases, inl,
  inr,
}
use shiyanhui_libcsp.Wrapper.{
  rax, rdi, rsi, rbp, load_word, Instr, push, pop, store_word, call, retq, BuildType, async_proc,
  sync_proc, main_proc, timer_proc, put_of, copy_args,
}
use shiyanhui_libcsp.Wrapper.Run.{Cpu, Fresh, exec, called, clobber, run}

-- What the loop over the arguments on the stack leaves.
pub record Copied (n sp : ℕ) (c d : Cpu) : Type 0 where
  pub top : d.regs rax ≡ sp
  pub base : d.regs rbp ≡ c.regs rbp
  pub words : d.words ≡ c.words
  pub rsp : d.rsp ≡ c.rsp
  pub first : d.regs rdi ≡ c.regs rdi
  pub blocks : d.blocks ≡ c.blocks
  pub calls : d.calls ≡ c.calls
  pub args : (i : ℕ) → 0 < i → i ≤ n → d.stack (sp + i * 8) ≡ get_or c.words (i + 1) 0
  pub above : (a : ℕ) → sp + n * 8 < a → d.stack a ≡ c.stack a

pub copy_args-Copied :
    (f : Fresh) (entry n sp : ℕ) (c : Cpu)
    → c.regs rax ≡ sp
    → sp + n * 8 < 2 ^ 64
    → Copied n sp c (run f entry (copy_args n) c)
unfolding copy_args
copy_args-Copied f entry zero sp c at fits = record {
  top = at;
  base = refl;
  words = refl;
  rsp = refl;
  first = refl;
  blocks = refl;
  calls = refl;
  args = λ i lo hi. absurd (omega arith);
  above = λ a lt. refl;
}
copy_args-Copied f entry (suc n) sp c at fits =
    let v = get_or c.words ((suc n + 1) * 2 ^ 3 / 8) 0 in
    let spot = (c.regs rax + suc n * 2 ^ 3) % 2 ^ 64 in
    let here : spot ≡ sp + suc n * 8 = omega arith in
    let read : v ≡ get_or c.words (suc n + 1) 0 = ap (λ i. get_or c.words i 0) (omega arith) in
    let c1 : Cpu =
      exec f entry (store_word (suc n * 2 ^ 3))
        (exec f entry (load_word ((suc n + 1) * 2 ^ 3) rsi) c) in
    let rest = copy_args-Copied f entry n sp c1 at (omega arith) in
    record {
      top = rest.top;
      base = rest.base;
      words = rest.words;
      rsp = rest.rsp;
      first = rest.first;
      blocks = rest.blocks;
      calls = rest.calls;
      args = λ i lo hi. elim (Bool-cases (i == suc n)) [
        | inl last ↦
            let same : i ≡ suc n = ground arith in
            rw same (
              rest.above (sp + suc n * 8) (omega arith)
              ∙ rw (here, eq→== (sp + suc n * 8) (sp + suc n * 8) refl) read)
        | inr less ↦ rest.args i lo (ground arith)
      ];
      above = λ a lt.
          rest.above a (omega arith)
          ∙ (let apart : spot ≢ a = omega arith in rw (ne→== spot a apart) refl);
    }

-- The put function is no csp_proc_new.
put-called :
    (f : Fresh) (build : BuildType) (c : Cpu)
    → called f (put_of build) c ≡ record c { regs = clobber f.junk c.regs }
put-called f async_proc c = refl
put-called f sync_proc c = refl
put-called f main_proc c = refl
put-called f timer_proc c = refl

-- From the padding of the second call to the return.
abbrev pub finish : (pad : Bool) → BuildType → List Instr
finish pad build =
    (if pad then [] else push rbp ∷ []) ++ (call (put_of build) ∷ pop rbp ∷ retq ∷ [])

pub record Finished (pad : Bool) (build : BuildType) (ws : List ℕ) (c d : Cpu) : Type 0 where
  pub base : d.regs rbp ≡ c.regs rbp
  pub words : d.words ≡ drop 1 ws
  pub blocks : d.blocks ≡ c.blocks
  pub stack : d.stack ≡ c.stack
  pub rsp :
      d.rsp ≡ (((if pad then c.rsp else (c.rsp + 2 ^ 64 - 8) % 2 ^ 64) + 8) % 2 ^ 64 + 8) % 2 ^ 64
  pub calls :
      d.calls
      ≡ c.calls
        ++ record {
          callee = put_of build;
          at = if pad then c.rsp else (c.rsp + 2 ^ 64 - 8) % 2 ^ 64;
          first = c.regs rdi;
          second = c.regs rsi;
        }
          ∷ []

pub finish-Finished :
    (f : Fresh) (entry : ℕ) (pad : Bool) (build : BuildType) (ws : List ℕ) (c : Cpu)
    → c.words ≡ (if pad then c.regs rbp ∷ ws else ws)
    → Finished pad build ws c (run f entry (finish pad build) c)
finish-Finished f entry true build ws c e =
    rw (put-called, e)
      (record { base = refl; words = refl; blocks = refl; stack = refl; rsp = refl; calls = refl })
finish-Finished f entry false build ws c e =
    rw (put-called, e)
      (record { base = refl; words = refl; blocks = refl; stack = refl; rsp = refl; calls = refl })
