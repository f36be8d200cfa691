-- ===== src/Sandbox/Child.antt =====
-- The child's side of src/sandbox/runner.rs (`child_exec`, `set_rlimit`) as the list of the steps
-- that it takes, and the filter of src/sandbox/seccomp.rs.
pub mod Seccomp
pub mod Process
pub mod Confined
use Prim.Native.Char.{code}
use Prim.Native.String
use mikan_judge.Prelude.{
  ℕ, ◌+◌, ◌*◌, ◌/◌, max, String, Bool, false, Option, none, some, List, [], ◌∷◌, ◌++◌, ◌||◌, eqb,
  format, if◌then◌else◌,
}
use mikan_judge.Sandbox.{Duration, FilePath, SandboxConfig}

pub data Resource : Type 0 where
  cpu address_space stack file_size processes : Resource

-- `exec` is `execvp`; the step behind it is taken only if the call returns.
pub data Step : Type 0 where
  dup2 : (from to : ℕ) → Step
  close : ℕ → Step
  set_rlimit : Resource → (soft hard : ℕ) → Step
  unshare_network : Step
  apply_seccomp : Step
  write_stderr : String → Step
  exec : FilePath → List String → Step
  exit : ℕ → Step

pub record Pipes : Type 0 where
  pub stdin_r : ℕ
  pub stdin_w : ℕ
  pub stdout_r : ℕ
  pub stdout_w : ℕ
  pub stderr_r : ℕ
  pub stderr_w : ℕ

-- `CString::new` fails on a text that holds the byte 0.
unfoldable pub has_nul : String → Bool
has_nul String.[] = false
has_nul (String.◌∷◌ c s) = eqb (code c) 0 || has_nul s

unfoldable pub any_nul : List String → Bool
any_nul [] = false
any_nul (s ∷ ss) = has_nul s || any_nul ss

abbrev pub rewire : Pipes → List Step
rewire p =
    dup2 p.stdin_r 0
    ∷ dup2 p.stdout_w 1
    ∷ dup2 p.stderr_w 2
    ∷ close p.stdin_r
    ∷ close p.stdin_w
    ∷ close p.stdout_r
    ∷ close p.stdout_w
    ∷ close p.stderr_r
    ∷ close p.stderr_w
    ∷ []

-- `time_limit.as_secs().max(1) + 1`
unfoldable pub cpu_secs : Duration → ℕ
cpu_secs time_limit = max (time_limit / 1_000_000_000) 1 + 1

abbrev pub limit_if : Resource → Option ℕ → List Step
limit_if r none = []
limit_if r (some n) = set_rlimit r n n ∷ []

abbrev pub stack_bytes : ℕ
stack_bytes = 64 * 1024 * 1024

abbrev pub file_bytes : ℕ
file_bytes = 16 * 1024 * 1024

abbrev pub limits : SandboxConfig → List Step
limits config =
    set_rlimit cpu (cpu_secs config.time_limit) (cpu_secs config.time_limit + 1)
      ∷ limit_if address_space config.vm_limit_bytes
    ++ (set_rlimit stack stack_bytes stack_bytes
        ∷ set_rlimit file_size file_bytes file_bytes
        ∷ limit_if processes config.nproc_limit)

abbrev run_program : FilePath → List String → List Step
run_program executable run_args =
    if has_nul executable || any_nul run_args
    then exit 1 ∷ []
    else exec executable (executable ∷ run_args) ∷ exit 1 ∷ []

-- `seccomp` is the error of `apply_filter`, if it returns one.
abbrev filter_and_run : Bool → Option String → List Step → List Step
filter_and_run enabled seccomp run =
    if enabled
    then (elim seccomp [
      | none ↦ apply_seccomp ∷ run
      | some e ↦
          apply_seccomp
          ∷ write_stderr (format ("seccomp setup failed: " ∷ e ∷ "\n" ∷ []))
          ∷ exit 1
          ∷ []
    ])
    else run

unfoldable pub child_exec :
    Pipes → FilePath → List String → SandboxConfig → Option String → List Step
unfolding cpu_secs has_nul any_nul
child_exec pipes executable run_args config seccomp =
    rewire pipes
    ++ (limits config
        ++ (unshare_network
            ∷ filter_and_run config.enable_seccomp seccomp (run_program executable run_args)))
