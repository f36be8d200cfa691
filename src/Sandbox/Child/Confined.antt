-- ===== src/Sandbox/Child/Confined.antt =====
-- The process in which `child_exec` of src/sandbox/runner.rs starts the program.
use mikan_judge.Prelude.{
  ℕ, ◌+◌, ◌*◌, ◌≤◌, ◌<◌, ◌≡◌, refl, sym, String, Bool, true, false, Option, none, some, List, ◌∷◌,
  ◌||◌, ◌&&◌, is_some, some_inj, arith, if◌then◌else◌, Option-cases, Bool-cases, ◌∙◌, ap, not, inl,
  inr,
}
use mathlib.Core.Path.{subst}
use mikan_judge.Sandbox.{FilePath, SandboxConfig}
use mikan_judge.Sandbox.Child.{Pipes, has_nul, any_nul, cpu_secs, child_exec}
use mikan_judge.Sandbox.Child.Process.{
  Process, Start, started, cpu_secs_bounds, started-run, all_limits, started-limits, AreHigh, IsEnd,
  wired, wired-streams, wired-ends,
}

module _ (p : Pipes) (executable : FilePath) (run_args : List String) (config : SandboxConfig)
    (seccomp : Option String) (start : Process) where
  -- The process in front of the program.
  confined : Process
  unfolding wired all_limits
  confined =
      record (all_limits config.time_limit config.vm_limit_bytes config.nproc_limit
        (wired p start)) { offline = true; filtered = config.enable_seccomp || start.filtered }

  started-child_exec : started (child_exec p executable run_args config seccomp) start ≡ (
      if has_nul executable || any_nul run_args || config.enable_seccomp && is_some seccomp
      then none
      else some (executable, executable ∷ run_args, confined))
  unfolding child_exec started confined
  started-child_exec =
      started-limits config config.vm_limit_bytes config.nproc_limit _ (wired p start)
      ∙ started-run executable run_args config.enable_seccomp seccomp _

  -- The program is the one that was asked for, with its arguments behind its own name. Its standard
  -- streams are the pipes, whose other descriptors are closed; it has asked for a network of its own,
  -- for the filter where it is on, and for its limits: of the CPU time at least the time limit and,
  -- beyond one second, at most two seconds more, of the memory and the processes as configured, 64 MiB
  -- of stack and 16 MiB for a file.
  pub record Confined (i o e : ℕ) (r : Start) : Type 0 where
    pub path : r.0 ≡ executable
    pub arguments : r.1 ≡ executable ∷ run_args
    pub stdin : r.2.fds 0 ≡ some i
    pub stdout : r.2.fds 1 ≡ some o
    pub stderr : r.2.fds 2 ≡ some e
    pub ends : (n : ℕ) → IsEnd p n → r.2.fds n ≡ none
    pub cpu_time :
        (secs : ℕ) × (r.2.cpu_limit ≡ some (secs, secs + 1))
        × (config.time_limit < secs * 1_000_000_000)
        × (secs * 1_000_000_000 ≤ config.time_limit + 2_000_000_000)
    pub memory : (n : ℕ) → config.vm_limit_bytes ≡ some n → r.2.address_space_limit ≡ some (n, n)
    pub process_count : (n : ℕ) → config.nproc_limit ≡ some n → r.2.processes_limit ≡ some (n, n)
    pub stack_size : r.2.stack_limit ≡ some (67_108_864, 67_108_864)
    pub file_bytes : r.2.file_size_limit ≡ some (16_777_216, 16_777_216)
    pub no_network : r.2.offline ≡ true
    pub has_filter : config.enable_seccomp ≡ true → r.2.filtered ≡ true
    pub filter_made : config.enable_seccomp ≡ true → seccomp ≡ none

  module _ (high : AreHigh p) {i o e : ℕ} (hi : start.fds p.stdin_r ≡ some i)
      (ho : start.fds p.stdout_w ≡ some o) (he : start.fds p.stderr_w ≡ some e) where
    confined-Confined :
        (config.enable_seccomp ≡ true → seccomp ≡ none)
        → Confined i o e (executable, executable ∷ run_args, confined)
    unfolding confined
    confined-Confined made =
        let (in_end, out_end, err_end) = wired-streams p high start hi ho he in
        record {
          path = refl;
          arguments = refl;
          stdin = in_end;
          stdout = out_end;
          stderr = err_end;
          ends = wired-ends p high start;
          cpu_time =
              let (low, high_end) = cpu_secs_bounds config.time_limit in
              (cpu_secs config.time_limit, refl, low, high_end);
          memory = λ n e. rw e refl;
          process_count = λ n e. rw e refl;
          stack_size = refl;
          file_bytes = refl;
          no_network = refl;
          has_filter = λ e. rw e refl;
          filter_made = made;
        }

    no_error :
        (has_nul executable || any_nul run_args || config.enable_seccomp && is_some seccomp) ≡ false
        → config.enable_seccomp ≡ true
        → seccomp ≡ none
    no_error fine on = elim (Option-cases seccomp) [
      | inl nothing ↦ nothing
      | inr (m, failed) ↦ absurd (ground (arith, fine, on, failed))
    ]

    choose : Bool → Option Start
    choose b = if b then none else some (executable, executable ∷ run_args, confined)

    none_ne_some : {r : Start} → ¬ (none ≡ some r)
    none_ne_some e = cc

    -- If the ends of the pipes are open and are no standard streams, the child starts the program
    -- exactly when its path and its arguments hold no byte 0 and the filter, where it is on, has been
    -- set up, and a program that is started is confined.
    pub child_exec-Confined :
        (is_some (started (child_exec p executable run_args config seccomp) start)
          ≡ not
              (has_nul executable || any_nul run_args || config.enable_seccomp && is_some seccomp))
        × ((r : Start)
            → started (child_exec p executable run_args config seccomp) start ≡ some r
            → Confined i o e r)
    unfolding choose
    child_exec-Confined =
        elim (Bool-cases
          (has_nul executable || any_nul run_args || config.enable_seccomp && is_some seccomp)) [
            | inl bad ↦
                let none_run = started-child_exec ∙ ap choose bad in
                (rw (none_run, bad) refl, λ r e. absurd (none_ne_some (sym none_run ∙ e)))
            | inr fine ↦
                let run = started-child_exec ∙ ap choose fine in
                (
                  rw (run, fine) refl,
                  λ r h.
                      subst (Confined i o e) (some_inj (sym run ∙ h))
                        (confined-Confined (no_error fine)),
                )
          ]
