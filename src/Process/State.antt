-- ===== src/Process/State.antt =====
-- `ProcessState`, `ProcessStatus` and `Process` of zenos-kernel/src/process/mod.rs.
use zenos.Common.{ℕ, Bool, true, false, List, Option}
use zenos.Files.Table.{Table}

-- The saved registers; `fxsave` is the FPU area as an opaque number.
pub record ProcessState : Type 0 where
  pub rax : ℕ
  pub rbx : ℕ
  pub rcx : ℕ
  pub rdx : ℕ
  pub rsi : ℕ
  pub rdi : ℕ
  pub rbp : ℕ
  pub rsp : ℕ
  pub r8 : ℕ
  pub r9 : ℕ
  pub r10 : ℕ
  pub r11 : ℕ
  pub r12 : ℕ
  pub r13 : ℕ
  pub r14 : ℕ
  pub r15 : ℕ
  pub rip : ℕ
  pub rflags : ℕ
  pub cs : ℕ
  pub ss : ℕ
  pub fxsave : ℕ

-- `ProcessState::default()`.
abbrev pub zero_state : ProcessState
zero_state = record {
  rax = 0;
  rbx = 0;
  rcx = 0;
  rdx = 0;
  rsi = 0;
  rdi = 0;
  rbp = 0;
  rsp = 0;
  r8 = 0;
  r9 = 0;
  r10 = 0;
  r11 = 0;
  r12 = 0;
  r13 = 0;
  r14 = 0;
  r15 = 0;
  rip = 0;
  rflags = 0;
  cs = 0;
  ss = 0;
  fxsave = 0;
}

-- `blocked` names the `AtomicBool` that holds the process back while it is true.
pub data ProcessStatus : Type 0 where
  running ready created exited : ProcessStatus
  blocked : ℕ → ProcessStatus
  waiting_for : ℕ → ProcessStatus

-- `cwd` names an inode; texts are lists of bytes.
pub record Process : Type 0 where
  pub pid : ℕ
  pub parent_pid : ℕ
  pub name : List ℕ
  pub state : ProcessState
  pub status : ProcessStatus
  pub cr3 : ℕ
  pub end : ℕ
  pub entry_point : ℕ
  pub file_handles : Table
  pub cwd : ℕ
  pub load_bias : ℕ
  pub loaded : Bool
  pub user_stack_top : ℕ
  pub exit_code : Option ℕ
  pub envp : List (List ℕ)
  pub argv : List (List ℕ)
  pub priority : ℕ

abbrev pub is_ready : ProcessStatus → Bool
is_ready ready = true
is_ready _ = false

-- `save_context`: the process becomes ready, whatever it was.
unfoldable pub save_context : ProcessState → Process → Process
save_context ctx p = record p { state = ctx; status = ready }
