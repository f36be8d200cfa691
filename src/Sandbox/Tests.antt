-- ===== src/Sandbox/Tests.antt =====
-- Instances of the theorems about the sandbox.
use mikan_judge.Prelude.{
  not, ℕ, ◌+◌, ◌*◌, ◌≤◌, ◌≡◌, refl, String, true, false, none, some, [], ◌∷◌, trim, take,
  split_whitespace, format, decimal, eqb, ltb, ◌/◌, ◌%◌, arith, ◌||◌, ◌&&◌, is_some, if◌then◌else◌,
  ◌==◌,
}
use mikan_judge.Prelude.Int.{pos}
use mikan_judge.Prelude.Outcome.{ok, Settles}
use mikan_judge.Sandbox.{SandboxConfig, RunResult, finished, from_millis}
use mikan_judge.Sandbox.Wait.{StatusMacros, Poll, reaped, alive, wait_loop, determine_status}
use mikan_judge.Sandbox.Pipes.{drain_fd}
use mikan_judge.Sandbox.Pipes.Limits.{until_end, drain_fd-eq-take}
use mikan_judge.Sandbox.Child.{Pipes, child_exec, has_nul, any_nul}
use mikan_judge.Sandbox.Child.Process.{Process, started, Start, AreHigh}
use mikan_judge.Sandbox.Child.Confined.{Confined, child_exec-Confined}
use mikan_judge.Sandbox.Child.Seccomp.{Libseccomp, Filter, allow, kill_process}
use mikan_judge.Sandbox.Compile.{System, done}
use mikan_judge.Sandbox.Runner.{Observed, run_sandboxed}
use mikan_judge.Sandbox.Cgroup.{
  CgroupSystem, Cgroups, base, has, ensure_cgroup_dir, enable_memory, peak_of, new_cgroup,
  run_in_cgroup,
}
use mikan_judge.Sandbox.Cgroup.Removed.{run_in_cgroup-result}
use mikan_judge.Sandbox.Runner.Limits.{Sleeps, run_sandboxed-Settles, run_sandboxed-finished}

abbrev macros : StatusMacros
macros = record {
  wifexited = λ raw. eqb (raw % 128) 0;
  wexitstatus = λ raw. pos (raw / 256 % 256);
  wifsignaled = λ raw. ltb 0 (raw % 128);
  wtermsig = λ raw. raw % 128;
  signal_try_from = λ n. some n;
}

abbrev config : SandboxConfig
config = record {
  time_limit = from_millis 2000;
  max_output_bytes = 2;
  vm_limit_bytes = some 1024;
  nproc_limit = some 1;
  enable_seccomp = true;
}

-- A program that is alive at the first poll and gone at the second.
abbrev second_poll : ℕ → Poll
second_poll i = if eqb i 0 then alive 5 else reaped 0 300

abbrev quick : Observed
quick = record {
  pipes = ok tt;
  fork = ok 7;
  start = 0;
  polls = second_poll;
  after_kill = none;
  elapsed = from_millis 8;
  memory_peak = some "4096\n";
  drains = true;
  stdout_reads = (51 ∷ 10 ∷ []) ∷ (52 ∷ []) ∷ [];
  stderr_reads = [];
}

abbrev result : RunResult
result = record {
  stdout = 51 ∷ 10 ∷ [];
  stderr = [];
  exit_code = some (pos 0);
  wall_time_used = from_millis 8;
  memory_used_bytes = 4096;
  status = finished;
}

quick_runs : run_sandboxed macros quick 3 config ≡ ok result
unfolding run_sandboxed wait_loop determine_status drain_fd trim
quick_runs = refl

run_sandboxed-finished_example :
    (result.exit_code ≡ some (pos 0))
    × (result.wall_time_used ≤ config.time_limit + from_millis 50)
    × (result.stdout ≡ take 2 (until_end quick.stdout_reads))
run_sandboxed-finished_example = run_sandboxed-finished macros quick config 3 quick_runs refl

-- A program that never ends is alive at every poll, 5 ms behind the one before.
abbrev endless : ℕ → Poll
endless i = alive (i * 5_000_000)

abbrev stubborn : Observed
stubborn = record quick { polls = endless; after_kill = some (9, 0) }

stubborn_sleeps : Sleeps macros stubborn config
stubborn_sleeps i now e = ground (arith, e)

run_sandboxed-Settles_example : Settles (run_sandboxed macros stubborn 500 config)
run_sandboxed-Settles_example =
    run_sandboxed-Settles macros stubborn config 500 (omega arith) tt tt stubborn_sleeps refl

drain_fd-eq-take_example :
    drain_fd 2 ((1 ∷ 2 ∷ 3 ∷ []) ∷ (4 ∷ []) ∷ [])
    ≡ take 2 (until_end ((1 ∷ 2 ∷ 3 ∷ []) ∷ (4 ∷ []) ∷ []))
drain_fd-eq-take_example = drain_fd-eq-take 2 ((1 ∷ 2 ∷ 3 ∷ []) ∷ (4 ∷ []) ∷ [])

abbrev pipes : Pipes
pipes = record { stdin_r = 3; stdin_w = 4; stdout_r = 5; stdout_w = 6; stderr_r = 7; stderr_w = 8 }

-- A child with every descriptor open and no limit.
abbrev child : Process
child = record {
  fds = λ n. some n;
  cpu_limit = none;
  address_space_limit = none;
  stack_limit = none;
  file_size_limit = none;
  processes_limit = none;
  offline = false;
  filtered = false;
}

abbrev high : AreHigh pipes
high = record {
  stdin_r = omega arith;
  stdin_w = omega arith;
  stdout_r = omega arith;
  stdout_w = omega arith;
  stderr_r = omega arith;
  stderr_w = omega arith;
}

child_exec-Confined_example :
    (is_some (started (child_exec pipes "/tmp/solution" ("-x" ∷ []) config none) child)
      ≡ not (
          has_nul "/tmp/solution"
          || any_nul ("-x" ∷ [])
          || config.enable_seccomp && is_some {A = String} none))
    × ((r : Start)
        → started (child_exec pipes "/tmp/solution" ("-x" ∷ []) config none) child ≡ some r
        → Confined pipes "/tmp/solution" ("-x" ∷ []) config none child 3 6 8 r)
child_exec-Confined_example =
    child_exec-Confined pipes "/tmp/solution" ("-x" ∷ []) config none child high refl refl refl

abbrev lib : Libseccomp
lib = record {
  new_filter = λ action. ok tt;
  from_name = λ name. if name == "read" then some 0 else if name == "socket" then some 41 else none;
  add_rule = λ action sc. ok tt;
  load = ok tt;
}

abbrev reading : Filter
reading = record { default_action = kill_process; rules = (0, allow) ∷ [] }

abbrev system : System
system = record {
  write_file = λ path content. ok tt;
  path_var = some ("/usr/bin" ∷ []);
  is_file = λ path. path == "/usr/bin/rustc";
  run = λ path args. ok (record { success = false; stdout = ""; stderr = "" });
  run_timed = λ seconds path args. done (record { success = true; stdout = ""; stderr = "" });
}

abbrev cgroup_system : CgroupSystem
cgroup_system = record {
  process_id = 40;
  create_dir_all = λ dir. true;
  create_dir = λ dir. true;
  remove_dir = λ dir. true;
  controllers = some "cpu memory\n";
  write = λ path. true;
}

abbrev cgroups : Cgroups
cgroups = record { seq = 6; folders = base ∷ []; writes = [] }

made_cgroup : new_cgroup cgroup_system cgroups ≡ (
  some "/sys/fs/cgroup/mikan-judge/run-40-6",
  record {
    seq = 7;
    folders = "/sys/fs/cgroup/mikan-judge/run-40-6" ∷ base ∷ [];
    writes = ("/sys/fs/cgroup/mikan-judge/cgroup.subtree_control", "+memory\n") ∷ [];
  },
)
unfolding new_cgroup ensure_cgroup_dir enable_memory has split_whitespace format decimal
made_cgroup = refl

run_in_cgroup-result_example :
    ((run_in_cgroup cgroup_system macros quick 3 config cgroups).0
      ≡ run_sandboxed macros (peak_of (new_cgroup cgroup_system cgroups).0 quick) 3 config)
    × ((run_in_cgroup cgroup_system macros quick 3 config cgroups).1.folders ≡ base ∷ [])
unfolding has
run_in_cgroup-result_example =
    run_in_cgroup-result cgroup_system macros quick 3 config (λ dir. refl) cgroups tt refl
