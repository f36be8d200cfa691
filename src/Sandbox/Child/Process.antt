-- ===== src/Sandbox/Child/Process.antt =====
-- What the steps of `child_exec` of src/sandbox/runner.rs do to the process that takes them.
use mikan_judge.Prelude.{
  ℕ, ◌+◌, ◌*◌, ◌≤◌, ◌<◌, ◌≡◌, refl, String, Bool, true, false, Option, none, some, List, [], ◌∷◌,
  ◌++◌, ◌||◌, ◌&&◌, eqb, is_some, arith, if◌then◌else◌, ◌⊎◌,
}
use mikan_judge.Sandbox.{Duration, FilePath, SandboxConfig}
use mikan_judge.Sandbox.Child.{
  Step, dup2, close, set_rlimit, unshare_network, apply_seccomp, write_stderr, exec, exit, Resource,
  cpu, address_space, stack, file_size, processes, Pipes, has_nul, any_nul, cpu_secs, limits,
  filter_and_run, run_program,
}

-- What the kernel keeps of the child: the open file of each descriptor, the limits of its resources
-- as they were asked for, and whether it has asked for a network of its own and for the filter.
pub record Process : Type 0 where
  pub fds : ℕ → Option ℕ
  pub cpu_limit : Option (ℕ × ℕ)
  pub address_space_limit : Option (ℕ × ℕ)
  pub stack_limit : Option (ℕ × ℕ)
  pub file_size_limit : Option (ℕ × ℕ)
  pub processes_limit : Option (ℕ × ℕ)
  pub offline : Bool
  pub filtered : Bool

pub limited : Resource → ℕ × ℕ → Process → Process
limited cpu l s = record s { cpu_limit = some l }
limited address_space l s = record s { address_space_limit = some l }
limited stack l s = record s { stack_limit = some l }
limited file_size l s = record s { file_size_limit = some l }
limited processes l s = record s { processes_limit = some l }

-- The other descriptor where the first one is open.
abbrev copied : Option ℕ → Option ℕ → Option ℕ
copied none kept = kept
copied (some file) kept = some file

pub run_step : Step → Process → Process
unfolding limited
run_step (dup2 from to) s = record s {
  fds = λ n. if eqb n to then copied (s.fds from) (s.fds n) else s.fds n;
}
run_step (close fd) s = record s { fds = λ n. if eqb n fd then none else s.fds n }
run_step (set_rlimit r soft hard) s = limited r (soft, hard) s
run_step unshare_network s = record s { offline = true }
run_step apply_seccomp s = record s { filtered = true }
run_step (write_stderr text) s = s
run_step (exec path args) s = s
run_step (exit code) s = s

-- A program that is started: its path, its arguments, and the process.
abbrev pub Start : Type 0
Start = FilePath × List String × Process

unfoldable pub started : List Step → Process → Option Start
unfolding run_step
started [] s = none
started (exec path args ∷ _) s = some (path, args, s)
started (exit _ ∷ _) s = none
started (dup2 from to ∷ steps) s = started steps (run_step (dup2 from to) s)
started (close fd ∷ steps) s = started steps (run_step (close fd) s)
started (set_rlimit r soft hard ∷ steps) s = started steps (run_step (set_rlimit r soft hard) s)
started (unshare_network ∷ steps) s = started steps (run_step unshare_network s)
started (apply_seccomp ∷ steps) s = started steps (run_step apply_seccomp s)
started (write_stderr text ∷ steps) s = started steps (run_step (write_stderr text) s)

-- The CPU limit in seconds passes the time limit, and by two seconds at most, or it is 2: a program
-- that keeps the time limit never meets the CPU limit.
pub cpu_secs_bounds :
    (t : Duration)
    → (t < cpu_secs t * 1_000_000_000) × (cpu_secs t * 1_000_000_000 ≤ t + 2_000_000_000)
unfolding cpu_secs
cpu_secs_bounds t = omega arith

-- The filter, and the start of the program.
pub started-run :
    (executable : FilePath) (run_args : List String) (enabled : Bool) (seccomp : Option String)
    (s : Process)
    → started (filter_and_run enabled seccomp (run_program executable run_args)) s ≡ (
        if has_nul executable || any_nul run_args || enabled && is_some seccomp
        then none
        else some
            (executable, executable ∷ run_args, record s { filtered = enabled || s.filtered }))
unfolding started
started-run executable run_args true none s = ground arith
started-run executable run_args true (some e) s = ground arith
started-run executable run_args false seccomp s = ground arith

-- The limit behind a request that may be left out.
abbrev asked : Option ℕ → Option (ℕ × ℕ) → Option (ℕ × ℕ)
asked none old = old
asked (some n) old = some (n, n)

unfoldable pub all_limits : Duration → Option ℕ → Option ℕ → Process → Process
all_limits t vm nproc s = record s {
  cpu_limit = some (cpu_secs t, cpu_secs t + 1);
  address_space_limit = asked vm s.address_space_limit;
  stack_limit = some (67_108_864, 67_108_864);
  file_size_limit = some (16_777_216, 16_777_216);
  processes_limit = asked nproc s.processes_limit;
}

pub started-limits :
    (config : SandboxConfig) (vm nproc : Option ℕ) (steps : List Step) (s : Process)
    → started (limits (record config { vm_limit_bytes = vm; nproc_limit = nproc }) ++ steps) s
      ≡ started steps (all_limits config.time_limit vm nproc s)
unfolding started all_limits
started-limits config none none steps s = refl
started-limits config none (some n) steps s = refl
started-limits config (some v) none steps s = refl
started-limits config (some v) (some n) steps s = refl

module _ (p : Pipes) where
  -- The ends of the three pipes are no standard streams.
  pub record AreHigh : Type 0 where
    pub stdin_r : 2 < p.stdin_r
    pub stdin_w : 2 < p.stdin_w
    pub stdout_r : 2 < p.stdout_r
    pub stdout_w : 2 < p.stdout_w
    pub stderr_r : 2 < p.stderr_r
    pub stderr_w : 2 < p.stderr_w

  abbrev pub IsEnd : ℕ → Type 0
  IsEnd n =
      (n ≡ p.stdin_r)
      ⊎ (n ≡ p.stdin_w)
      ⊎ (n ≡ p.stdout_r)
      ⊎ (n ≡ p.stdout_w)
      ⊎ (n ≡ p.stderr_r)
      ⊎ (n ≡ p.stderr_w)

  -- The descriptors behind the rewiring.
  unfoldable pub wired : Process → Process
  unfolding run_step
  wired s = run_step (close p.stderr_w) (
      run_step (close p.stderr_r) (
        run_step (close p.stdout_w) (
          run_step (close p.stdout_r) (
            run_step (close p.stdin_w) (
              run_step (close p.stdin_r) (
                run_step (dup2 p.stderr_w 2)
                  (run_step (dup2 p.stdout_w 1) (run_step (dup2 p.stdin_r 0) s))))))))

  module _ (high : AreHigh) (s : Process) where
    pub wired-streams :
        {i o e : ℕ}
        → s.fds p.stdin_r ≡ some i
        → s.fds p.stdout_w ≡ some o
        → s.fds p.stderr_w ≡ some e
        → ((wired s).fds 0 ≡ some i) × ((wired s).fds 1 ≡ some o) × ((wired s).fds 2 ≡ some e)
    unfolding wired
    wired-streams hi ho he = (
      ground (
        arith, high.stdin_r, high.stdin_w, high.stdout_r, high.stdout_w, high.stderr_r,
        high.stderr_w, hi, ho, he,
      ),
      ground (
        arith, high.stdin_r, high.stdin_w, high.stdout_r, high.stdout_w, high.stderr_r,
        high.stderr_w, hi, ho, he,
      ),
      ground (
        arith, high.stdin_r, high.stdin_w, high.stdout_r, high.stdout_w, high.stderr_r,
        high.stderr_w, hi, ho, he,
      ),
    )

    pub wired-ends : (n : ℕ) → IsEnd n → (wired s).fds n ≡ none
    unfolding wired
    wired-ends n h = ground (arith, h)
