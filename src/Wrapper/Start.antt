-- ===== src/Wrapper/Start.antt =====
-- A whole wrapper, build_fn_body of plugin/proc.hpp: what it calls, the process it leaves, and its
-- return.
use shiyanhui_libcsp.Base.{
  ℕ, suc, ◌+◌, ◌-◌, ◌*◌, ◌/◌, ◌%◌, ◌^◌, ◌≤◌, ◌<◌, ◌≡◌, ◌≢◌, refl, sym, ap, ◌∙◌, arith, [], ◌∷◌,
  ◌++◌, Bool, true, false, if◌then◌else◌, get_or, take, drop, eq→==, ne→==, Bool-cases, inl, inr,
  subst, bit_and, append_assoc, bit_and-mask, ltb→lt, ltb-false, ltb,
}
use shiyanhui_libcsp.Wrapper.{
  rax, rdi, rsi, rbp, load_field, sub_rax, store_field, lea_entry, store_word, csp_proc_new,
  BuildType, async_proc, sync_proc, main_proc, timer_proc, is_sync, need_padding, in_regs, put_of,
  copy_args, rsv_num, time_code, end_code, build_fn_body, pops, begin_code,
}
use shiyanhui_libcsp.Wrapper.Run.{Call, Cpu, Fresh, run, run-append}
use shiyanhui_libcsp.Wrapper.Args.{
  reg_args, field_args, pushed, popped, pushed_lem, popped_lem, padding, begun, Ready, begin-Ready,
}
use shiyanhui_libcsp.Wrapper.Parts.{copy_args-Copied, finish, finish-Finished}

rsv_num-odd : (n : ℕ) → rsv_num n % 2 ≡ 1
unfolding rsv_num
rsv_num-odd n = elim (Bool-cases (ltb 6 n)) [
  | inl many ↦
      let bits : bit_and (1 + (n - 6)) 1 ≡ (1 + (n - 6)) % 2 = bit_and-mask 1 (1 + (n - 6)) in
      rw (many, bits) (ground arith)
  | inr few ↦ rw few refl
]

rsv_num-room : (n : ℕ) → n - 6 < rsv_num n
unfolding rsv_num
rsv_num-room n = elim (Bool-cases (ltb 6 n)) [
  | inl many ↦ rw many (omega arith)
  | inr few ↦ rw few (ground arith)
]

-- The last of `args_len` arguments.
abbrev pub last_arg : (args_len : ℕ) → Cpu → ℕ
last_arg args_len c =
    if ltb 6 args_len
    then get_or c.words (args_len - 6) 0
    else get_or (reg_args c.regs) (args_len - 1) 0

-- The code for the timestamp changes one field and %rax.
record Timed (f : Fresh) (build : BuildType) (id n : ℕ) (c d e : Cpu) : Type 0 where
  ready : Ready f build id n c e
  stack : e.stack ≡ d.stack
  time : build ≡ timer_proc → 0 < n → e.blocks f.address 0x60 ≡ last_arg n c

time-Timed :
    (f : Fresh) (entry : ℕ) (build : BuildType) (id n : ℕ) (c d : Cpu)
    → Ready f build id n c d
    → Timed f build id n c d (run f entry (time_code build n) d)
unfolding time_code
time-Timed f entry async_proc id n c d r = record {
  ready = r;
  stack = refl;
  time = λ e. absurd (cc);
}
time-Timed f entry sync_proc id n c d r = record {
  ready = r;
  stack = refl;
  time = λ e. absurd (cc);
}
time-Timed f entry main_proc id n c d r = record {
  ready = r;
  stack = refl;
  time = λ e. absurd (cc);
}
time-Timed f entry timer_proc id n c d r = elim (Bool-cases (ltb 6 n)) [
  | inl many ↦
      let words : d.words ≡ c.regs rbp ∷ c.words = rw many at r.0 in
      let place : (n - 5) * 2 ^ 3 / 8 ≡ suc (n - 6) = ground arith in
      rw many (record {
        ready = (r.0, r.1, r.2, λ p q. absurd (ground arith), r.4, r.5, r.6, r.7, r.8, r.9, r.10);
        stack = refl;
        time = λ e p. rw (many, place, words, r.10, eq→== f.address f.address refl) refl;
      })
  | inr few ↦ rw few (record {
    ready = (
      r.0,
      r.1,
      r.2,
      λ p q.
          let apart : 0x60 ≢ 0x30 + (n - 1) * 2 ^ 3 = omega arith in
          rw (ne→== 0x60 (0x30 + (n - 1) * 2 ^ 3) apart) (r.3 p q),
      r.4,
      r.5,
      r.6,
      r.7,
      r.8,
      r.9,
      r.10,
    );
    stack = refl;
    time = λ e p. rw (few, r.10, eq→== f.address f.address refl) (r.3 p (ground arith));
  })
]

-- What a wrapper has done when it returns: `frame` is the frame pointer that csp_proc_new chose.
pub record Built (f : Fresh) (entry : ℕ) (build : BuildType) (id n : ℕ) (c d : Cpu) : Type 0 where
  pub sp : ℕ
  pub sp_eq : sp + rsv_num n * 8 ≡ f.blocks f.address 0x28
  pub sp_stored : d.blocks f.address 0x20 ≡ sp
  pub sp_aligned : sp % 16 ≡ 8
  pub starts : d.stack sp ≡ entry
  pub frame : d.blocks f.address 0x28 ≡ f.blocks f.address 0x28
  pub marked : d.blocks f.address 0x10 ≡ f.blocks f.address 0x10
  pub reg_kept :
      take (in_regs n) (field_args (d.blocks f.address)) ≡ take (in_regs n) (reg_args c.regs)
  pub stack_kept : (i : ℕ) → 0 < i → i ≤ n - 6 → d.stack (sp + i * 8) ≡ get_or c.words i 0
  pub inside : sp + (n - 6) * 8 < f.blocks f.address 0x28
  pub control : (d.blocks f.address 0x18 ≡ c.mxcsr) × (d.blocks f.address 0x1c ≡ c.x87cw)
  pub time : build ≡ timer_proc → 0 < n → d.blocks f.address 0x60 ≡ last_arg n c
  pub returned : (d.rsp ≡ c.rsp + 8) × (d.words ≡ drop 1 c.words) × (d.regs rbp ≡ c.regs rbp)
  pub new : Call
  pub put : Call
  pub calls : d.calls ≡ c.calls ++ new ∷ put ∷ []
  pub new_call :
      (new.callee ≡ csp_proc_new)
      × (new.at % 16 ≡ 0)
      × (new.first ≡ id)
      × (new.second ≡ is_sync build)
  pub put_call : (put.callee ≡ put_of build) × (put.at % 16 ≡ 0) × (put.first ≡ f.address)

-- The code in its parts.
split_run :
    (f : Fresh) (entry : ℕ) (build : BuildType) (id n : ℕ) (c : Cpu)
    → run f entry (build_fn_body build id n).0 c
      ≡ run f entry (finish (need_padding n) build) (
          run f entry (lea_entry ∷ store_word 0 ∷ []) (
            run f entry (copy_args (n - 6)) (
              run f entry
                (load_field 0x28 ∷ sub_rax (rsv_num n * 2 ^ 3) ∷ store_field 0x20 ∷ [])
                (run f entry (time_code build n) (begun f entry build id n c)))))
unfolding build_fn_body end_code
split_run f entry build id n c =
    run-append f entry (begin_code build id n) _ c
    ∙ run-append f entry (take (in_regs n) pops) _ _
    ∙ run-append f entry (time_code build n) _ _
    ∙ run-append f entry (copy_args (n - 6)) _ _

in_regs-le : (n : ℕ) → in_regs n ≤ 6
in_regs-le n = ground arith

-- The stack pointer behind the pops.
settled :
    (n r : ℕ)
    → 64 ≤ r
    → r < 2 ^ 64
    → popped (in_regs n) (pushed (padding n + in_regs n) r) ≡ r - padding n * 8
settled n r lo hi =
    let few = in_regs-le n in
    let one : padding n ≤ 1 = ground arith in
    let down = pushed_lem (padding n + in_regs n) r (omega arith) hi in
    popped_lem (in_regs n) (pushed (padding n + in_regs n) r) (omega arith) ∙ omega arith

words-odd : (n : ℕ) → (padding n + in_regs n) % 2 ≡ 1
words-odd n =
    let bits : bit_and n 1 ≡ n % 2 = bit_and-mask 1 n in
    elim (Bool-cases (ltb 6 n)) [
      | inl many ↦ let more = ltb→lt 6 n many in rw (many, ltb-false n 6 (omega arith)) refl
      | inr few ↦ rw (few, bits) (ground arith)
    ]

-- The stack pointer at the call of csp_proc_new: an odd number of words is pushed.
new_at-aligned :
    (n r : ℕ) → r % 16 ≡ 8 → 64 ≤ r → r < 2 ^ 64 → pushed (padding n + in_regs n) r % 16 ≡ 0
new_at-aligned n r a lo hi =
    let few = in_regs-le n in
    let one : padding n ≤ 1 = ground arith in
    let odd : (padding n + in_regs n) % 2 ≡ 1 = words-odd n in
    omega (arith, pushed_lem (padding n + in_regs n) r (omega arith) hi)

put_at :
    (b : Bool) (x r : ℕ)
    → x ≡ r - (if b then 1 else 0) * 8
    → 64 ≤ r
    → r < 2 ^ 64
    → (if b then x else (x + 2 ^ 64 - 8) % 2 ^ 64) ≡ r - 8
put_at true x r e lo hi = omega arith
put_at false x r e lo hi = omega arith

-- The code that build_fn_body makes for a function of `n` arguments, called with a stack as the ABI
-- wants it and given a process whose frame pointer is aligned and has room below, calls
-- csp_proc_new with the wrapper's id and one of the put functions with the new process, both with
-- %rsp a multiple of 16, and returns. The process it leaves at the address given starts at the label
-- `0` with the control words, its stack pointer as the ABI wants it, every argument of the caller in
-- the field of its register or above its stack pointer in order, below the frame pointer, and the
-- timestamp of a timer.
pub build_fn_body-Built :
    (f : Fresh) (entry : ℕ) (build : BuildType) (id n : ℕ) (c : Cpu)
    → c.rsp % 16 ≡ 8
    → 64 ≤ c.rsp
    → c.rsp + 8 < 2 ^ 64
    → f.blocks f.address 0x28 % 16 ≡ 0
    → rsv_num n * 8 ≤ f.blocks f.address 0x28
    → f.blocks f.address 0x28 < 2 ^ 64
    → Built f entry build id n c (run f entry (build_fn_body build id n).0 c)
build_fn_body-Built f entry build id n c a lo hi fa room fhi =
    let d = begun f entry build id n c in
    let e = run f entry (time_code build n) d in
    let t = time-Timed f entry build id n c d (begin-Ready f entry build id n c) in
    let e1 =
      run f entry (load_field 0x28 ∷ sub_rax (rsv_num n * 2 ^ 3) ∷ store_field 0x20 ∷ []) e in
    let sp = f.blocks f.address 0x28 - rsv_num n * 8 in
    let read : e.blocks (e.regs rdi) 0x28 ≡ f.blocks f.address 0x28 =
      ap (λ b. e.blocks b 0x28) t.ready.10 ∙ t.ready.4 in
    let top : e1.regs rax ≡ sp = omega (arith, read) in
    let k = copy_args-Copied f entry (n - 6) sp e1 top (omega (arith, rsv_num-room n)) in
    let e2 = run f entry (copy_args (n - 6)) e1 in
    let e3 = run f entry (lea_entry ∷ store_word 0 ∷ []) e2 in
    let ws =
      k.words
      ∙ t.ready.0
      ∙ ap (λ b. if need_padding n then b ∷ c.words else c.words) (sym (k.base ∙ t.ready.1)) in
    let z = finish-Finished f entry (need_padding n) build c.words e3 ws in
    let blocks = ap (λ m. m f.address) (z.blocks ∙ k.blocks) in
    let rsp = k.rsp ∙ t.ready.7 ∙ settled n c.rsp lo (omega arith) in
    let put_rsp = put_at (need_padding n) e2.rsp c.rsp rsp lo (omega arith) in
    let new : Call = record {
      callee = csp_proc_new;
      at = pushed (padding n + in_regs n) c.rsp;
      first = id;
      second = is_sync build;
    } in
    let put : Call = record {
      callee = put_of build;
      at = if need_padding n then e2.rsp else (e2.rsp + 2 ^ 64 - 8) % 2 ^ 64;
      first = e3.regs rdi;
      second = e3.regs rsi;
    } in
    subst (Built f entry build id n c) (sym (split_run f entry build id n c)) (record {
      sp = sp;
      sp_eq = omega arith;
      sp_stored = ap (λ p. p 0x20) blocks ∙ rw (eq→== (e.regs rdi) f.address t.ready.10) top;
      sp_aligned = omega (arith, rsv_num-odd n);
      starts =
          ap (λ s. s sp) z.stack
          ∙ rw (eq→== ((e2.regs rax + 0) % 2 ^ 64) sp (omega (arith, k.top))) refl;
      frame = ap (λ p. p 0x28) blocks ∙ t.ready.4;
      marked = ap (λ p. p 0x10) blocks ∙ t.ready.9;
      reg_kept = ap (λ p. take (in_regs n) (field_args p)) blocks ∙ t.ready.2;
      stack_kept = λ i low high.
          let many : need_padding n ≡ true = ground arith in
          let words : e.words ≡ c.regs rbp ∷ c.words = rw many at t.ready.0 in
          let apart : (e2.regs rax + 0) % 2 ^ 64 ≢ sp + i * 8 =
            omega (arith, k.top, rsv_num-room n) in
          ap (λ s. s (sp + i * 8)) z.stack
          ∙ rw (ne→== ((e2.regs rax + 0) % 2 ^ 64) (sp + i * 8) apart) (
              let next : i + 1 ≡ suc i = omega arith in
              k.args i low high
              ∙ ap (λ l. get_or l (i + 1) 0) words
              ∙ ap (λ j. get_or (c.regs rbp ∷ c.words) j 0) next);
      inside = omega (arith, rsv_num-room n);
      control = (ap (λ p. p 0x18) blocks ∙ t.ready.5, ap (λ p. p 0x1c) blocks ∙ t.ready.6);
      time = λ b p. ap (λ p. p 0x60) blocks ∙ t.time b p;
      returned = (z.rsp ∙ omega (arith, put_rsp), z.words, z.base ∙ k.base ∙ t.ready.1);
      new = new;
      put = put;
      calls =
          z.calls
          ∙ ap (λ l. l ++ put ∷ []) (k.calls ∙ t.ready.8)
          ∙ append_assoc c.calls (new ∷ []) (put ∷ []);
      new_call = (refl, new_at-aligned n c.rsp a lo (omega arith), refl, refl);
      put_call = (refl, omega (arith, put_rsp), k.first ∙ t.ready.10);
    })
