-- ===== src/Sandbox/Cgroup.antt =====
-- `LinuxCgroup` and `ensure_cgroup_dir` of src/sandbox/runner.rs: the folder of a run's cgroup, and
-- the frame of `run_sandboxed_blocking` that makes it, puts the child in and takes it away.
pub mod Removed
use mikan_judge.Prelude.{
  ℕ, ◌+◌, ◌%◌, ◌^◌, String, Bool, true, false, Option, none, some, List, [], ◌∷◌, ◌||◌, ◌&&◌, not,
  ◌==◌, unwrap_or, format, decimal, split_whitespace, if◌then◌else◌,
}
use mikan_judge.Prelude.Outcome.{Outcome, ok, err, panic, out_of_fuel}
use mikan_judge.Sandbox.{FilePath, SandboxConfig, RunResult}
use mikan_judge.Sandbox.Compile.{join}
use mikan_judge.Sandbox.Wait.{StatusMacros}
use mikan_judge.Sandbox.Runner.{Observed, parent_collect}

-- What the kernel lets through; `controllers` is the text of `cgroup.controllers`.
pub record CgroupSystem : Type 0 where
  pub process_id : ℕ
  pub create_dir_all : FilePath → Bool
  pub create_dir : FilePath → Bool
  pub remove_dir : FilePath → Bool
  pub controllers : Option String
  pub write : FilePath → Bool

-- The counter `CGROUP_SEQ`, the folders, and what has been written, the latest first.
pub record Cgroups : Type 0 where
  pub seq : ℕ
  pub folders : List FilePath
  pub writes : List (FilePath × String)

unfoldable pub has : String → List String → Bool
has x [] = false
has x (y ∷ ys) = (x == y) || has x ys

unfoldable pub without : FilePath → List FilePath → List FilePath
without x [] = []
without x (y ∷ ys) = if x == y then ys else y ∷ without x ys

abbrev pub base : FilePath
base = "/sys/fs/cgroup/mikan-judge"

-- Without a folder there is no `memory.peak`.
abbrev pub peak_of : Option FilePath → Observed → Observed
peak_of none o = record o { memory_peak = none }
peak_of (some _) o = o

module _ (sys : CgroupSystem) where
  -- `fs::write`, and whether it went through
  abbrev pub write_file : FilePath → String → Cgroups → Bool × Cgroups
  write_file path content s =
      if sys.write path
      then (true, record s { writes = (path, content) ∷ s.writes })
      else (false, s)

  abbrev add_folder : FilePath → Cgroups → Cgroups
  add_folder dir s = record s { folders = dir ∷ s.folders }

  unfoldable pub enable_memory : FilePath → Cgroups → Cgroups
  enable_memory dir s =
      if has "memory" (split_whitespace (unwrap_or sys.controllers ""))
      then (write_file (join dir "cgroup.subtree_control") "+memory\n" s).1
      else s

  unfoldable pub ensure_cgroup_dir : FilePath → Cgroups → Bool × Cgroups
  ensure_cgroup_dir dir s =
      if has dir s.folders
      then (true, enable_memory dir s)
      else if sys.create_dir_all dir
      then (true, enable_memory dir (add_folder dir s))
      else (false, s)

  abbrev pub run_dir : Cgroups → FilePath
  run_dir s = join base (format ("run-" ∷ decimal sys.process_id ∷ "-" ∷ decimal s.seq ∷ []))

  -- `fetch_add`, then `fs::create_dir`, which fails where the folder is there
  unfoldable pub create_run_dir : Cgroups → Option FilePath × Cgroups
  create_run_dir s =
      let counted = record s { seq = (s.seq + 1) % 2 ^ 64 } in
      if sys.create_dir (run_dir s) && not (has (run_dir s) s.folders)
      then (some (run_dir s), add_folder (run_dir s) counted)
      else (none, counted)

  unfoldable pub new_cgroup : Cgroups → Option FilePath × Cgroups
  unfolding create_run_dir
  new_cgroup s =
      let (made, s') = ensure_cgroup_dir base s in if made then create_run_dir s' else (none, s')

  unfoldable pub add_process : (pid : ℕ) → FilePath → Cgroups → Bool × Cgroups
  add_process pid dir s = write_file (join dir "cgroup.procs") (format (decimal pid ∷ "\n" ∷ [])) s

  unfoldable pub drop_cgroup : Option FilePath → Cgroups → Cgroups
  drop_cgroup none s = s
  drop_cgroup (some dir) s =
      if sys.remove_dir dir then record s { folders = without dir s.folders } else s

  abbrev pub enter : (pid : ℕ) → Option FilePath → Cgroups → Cgroups
  enter pid none s = s
  enter pid (some dir) s = (add_process pid dir s).1

  module _ (m : StatusMacros) (o : Observed) (fuel : ℕ) (config : SandboxConfig) where
    -- The two sides of `fork`'s result; the cgroup is dropped behind either.
    unfoldable pub forked : Option FilePath → Outcome ℕ → Cgroups → Outcome RunResult × Cgroups
    forked g (ok child) s =
        (parent_collect m (peak_of g o) fuel child config, drop_cgroup g (enter child g s))
    forked g (err e) s = (err e, drop_cgroup g s)
    forked g panic s = (panic, drop_cgroup g s)
    forked g out_of_fuel s = (out_of_fuel, s)

    unfoldable pub piped : Outcome (Unit {0}) → Cgroups → Outcome RunResult × Cgroups
    piped (ok _) s = let (g, s') = new_cgroup s in forked g o.fork s'
    piped (err e) s = (err e, s)
    piped panic s = (panic, s)
    piped out_of_fuel s = (out_of_fuel, s)

    unfoldable pub run_in_cgroup : Cgroups → Outcome RunResult × Cgroups
    unfolding piped
    run_in_cgroup s = piped o.pipes s
