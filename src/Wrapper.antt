-- ===== src/Wrapper.antt =====
-- build_fn_body of plugin/proc.hpp: the code that the plugin generates for the wrapper of a
-- function that becomes a process. The code is a list of instructions, which run on the registers,
-- the words of the caller's stack from %rsp up, the new process and its stack.
pub mod Run
pub mod Args
pub mod Parts
pub mod Start
pub mod Enter
mod Tests
use shiyanhui_libcsp.Base.{
  ℕ, zero, suc, ◌+◌, ◌-◌, ◌*◌, ◌%◌, ◌^◌, bit_and, Bool, true, false, List, [], ◌∷◌, ◌++◌, ◌==◌, ltb,
  not, ◌||◌, if◌then◌else◌, get_or, take, drop, update,
}

pub data Reg : Type 0 where
  rax : Reg
  rdi : Reg
  rsi : Reg
  rdx : Reg
  rcx : Reg
  r8 : Reg
  r9 : Reg
  rbp : Reg

-- The functions that the wrapper calls; `wrapped` is the one that becomes the process.
pub data Callee : Type 0 where
  csp_proc_new : Callee
  csp_sched_put_proc : Callee
  csp_sched_put_timer : Callee
  wrapped : Callee
  exit : Callee
  csp_core_proc_exit : Callee

-- The instructions of the generated code, in the order of its text.
pub data Instr : Type 0 where
  -- `push %r` and `pop %r`
  push : Reg → Instr
  pop : Reg → Instr
  -- `popq i(%rdi)`
  pop_field : ℕ → Instr
  -- `mov $v, %r`
  load_imm : ℕ → Reg → Instr
  -- `mov %r, %s`
  move : Reg → Reg → Instr
  -- `stmxcsr 0x18(%rdi)` and `fstcw 0x1c(%rdi)`
  save_mxcsr : Instr
  save_x87cw : Instr
  -- `mov i(%rdi), %rax` and `mov %rax, i(%rdi)`
  load_field : ℕ → Instr
  store_field : ℕ → Instr
  -- `mov i(%rsp), %r`
  load_word : ℕ → Reg → Instr
  -- `sub $v, %rax`
  sub_rax : ℕ → Instr
  -- `mov %rsi, i(%rax)`
  store_word : ℕ → Instr
  -- `lea 0f(%rip), %rsi`
  lea_entry : Instr
  call : Callee → Instr
  retq : Instr

-- `build_type_t`, without the type of the real main function.
pub data BuildType : Type 0 where
  async_proc : BuildType
  sync_proc : BuildType
  main_proc : BuildType
  timer_proc : BuildType

abbrev pub is_sync : BuildType → ℕ
is_sync async_proc = 0
is_sync sync_proc = 1
is_sync main_proc = 0
is_sync timer_proc = 0

-- `need_padding`.
abbrev pub need_padding : (args_len : ℕ) → Bool
need_padding args_len = ltb 6 args_len || (bit_and args_len 1 == 0)

abbrev pub pushes : List Instr
pushes = push rdi ∷ push rsi ∷ push rdx ∷ push rcx ∷ push r8 ∷ push r9 ∷ []

abbrev pub pops : List Instr
pops =
    pop_field 0x30
    ∷ pop_field 0x38
    ∷ pop_field 0x40
    ∷ pop_field 0x48
    ∷ pop_field 0x50
    ∷ pop_field 0x58
    ∷ []

-- `args_len < 6 ? args_len : 6`.
abbrev pub in_regs : ℕ → ℕ
in_regs args_len = if ltb args_len 6 then args_len else 6

abbrev pub no_instr : Instr
no_instr = retq

-- `for (int i = n - 1; i >= 0; i--) buff.append(pushes[i]);`
unfoldable pub push_args : (n : ℕ) → List Instr
push_args zero = []
push_args (suc n) = get_or pushes n no_instr ∷ push_args n

-- The code up to the call of csp_proc_new, and the control words behind it.
unfoldable pub begin_code : BuildType → (id args_len : ℕ) → List Instr
unfolding push_args
begin_code build id args_len =
    (if need_padding args_len then push rbp ∷ [] else [])
    ++ (push_args (in_regs args_len)
        ++ (load_imm id rdi
            ∷ load_imm (is_sync build) rsi
            ∷ call csp_proc_new
            ∷ move rax rdi
            ∷ save_mxcsr
            ∷ save_x87cw
            ∷ []))

-- The timestamp, which is the last argument.
unfoldable pub time_code : BuildType → (args_len : ℕ) → List Instr
time_code async_proc args_len = []
time_code sync_proc args_len = []
time_code main_proc args_len = []
time_code timer_proc args_len =
    (if ltb 6 args_len
      then load_word ((args_len - 5) * 2 ^ 3) rax
      else load_field (0x30 + (args_len - 1) * 2 ^ 3))
    ∷ store_field 0x60
    ∷ []

-- `rsv_num`.
unfoldable pub rsv_num : (args_len : ℕ) → ℕ
rsv_num args_len =
    let n = if ltb 6 args_len then 1 + (args_len - 6) else 1 in
    n + (if bit_and n 1 == 0 then 1 else 0)

-- `for (int i = n; i >= 1; i--)`: an argument from the caller's stack to the process's.
unfoldable pub copy_args : (n : ℕ) → List Instr
copy_args zero = []
copy_args (suc n) = load_word ((suc n + 1) * 2 ^ 3) rsi ∷ store_word (suc n * 2 ^ 3) ∷ copy_args n

abbrev pub put_of : BuildType → Callee
put_of async_proc = csp_sched_put_proc
put_of sync_proc = csp_sched_put_proc
put_of main_proc = csp_sched_put_proc
put_of timer_proc = csp_sched_put_timer

-- The code behind the call of csp_proc_new, up to the return.
unfoldable pub end_code : BuildType → (args_len : ℕ) → List Instr
unfolding time_code rsv_num copy_args
end_code build args_len =
    take (in_regs args_len) pops
    ++ (time_code build args_len
        ++ ((load_field 0x28 ∷ sub_rax (rsv_num args_len * 2 ^ 3) ∷ store_field 0x20 ∷ [])
            ++ (copy_args (args_len - 6)
                ++ ((lea_entry ∷ store_word 0 ∷ [])
                    ++ ((if need_padding args_len then [] else push rbp ∷ [])
                        ++ (call (put_of build) ∷ pop rbp ∷ retq ∷ []))))))

-- The code at the label `0`, where the scheduler starts the process.
unfoldable pub entry_code : BuildType → List Instr
entry_code async_proc = call wrapped ∷ call csp_core_proc_exit ∷ []
entry_code sync_proc = call wrapped ∷ call csp_core_proc_exit ∷ []
entry_code main_proc = call wrapped ∷ move rax rdi ∷ call exit ∷ []
entry_code timer_proc = call wrapped ∷ call csp_core_proc_exit ∷ []

-- `stack_frame`, the bytes that the wrapper pushes.
unfoldable pub stack_frame : (args_len : ℕ) → ℕ
stack_frame args_len =
    (if need_padding args_len then 8 else 0)
    + in_regs args_len * 8
    + (if need_padding args_len then 0 else 8)

-- The text of build_fn_body with its label left out: what runs in the caller, and what the process
-- runs.
unfoldable pub build_fn_body : BuildType → (id args_len : ℕ) → List Instr × List Instr
unfolding begin_code end_code entry_code
build_fn_body build id args_len =
    (begin_code build id args_len ++ end_code build args_len, entry_code build)
