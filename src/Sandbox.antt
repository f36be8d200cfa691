-- ===== src/Sandbox.antt =====
-- sandbox/: compiling a submission and running it under limits. The records stand here.
mod Tests
pub mod Compile
pub mod Child
pub mod Pipes
pub mod Wait
pub mod Runner
pub mod Cgroup
use mikan_judge.Prelude.{ℕ, String, Bool, Option, List, ◌*◌}
use mikan_judge.Prelude.Int.{ℤ}

-- A `Duration` in nanoseconds.
abbrev pub Duration : Type 0
Duration = ℕ

abbrev pub from_millis : ℕ → Duration
from_millis ms = ms * 1_000_000

-- A path or a file name; bytes are numbers below 256.
abbrev pub FilePath : Type 0
FilePath = String

abbrev pub Bytes : Type 0
Bytes = List ℕ

pub record SandboxConfig : Type 0 where
  pub time_limit : Duration
  pub max_output_bytes : ℕ
  pub vm_limit_bytes : Option ℕ
  pub nproc_limit : Option ℕ
  pub enable_seccomp : Bool

pub record CompileOutput : Type 0 where
  pub executable : FilePath
  pub run_args : List String
  pub error : Option String
  pub warnings : String

pub data RunStatus : Type 0 where
  finished time_limit_exceeded runtime_error killed : RunStatus

pub record RunResult : Type 0 where
  pub stdout : Bytes
  pub stderr : Bytes
  pub exit_code : Option ℤ
  pub wall_time_used : Duration
  pub memory_used_bytes : ℕ
  pub status : RunStatus
