-- ===== src/Sandbox/Cgroup/Removed.antt =====
-- The folder of a run is gone when the run has ended.
use mikan_judge.Prelude.{
  ℕ, ◌≡◌, refl, true, Option, none, some, List, ◌∷◌, Bool-cases, inl, inr, eq_refl, arith, ◌&&◌,
  not, ap, ◌∙◌,
}
use mikan_judge.Prelude.Outcome.{Outcome, ok, err, panic, out_of_fuel, Settles, ◌>>=◌, ◌>>◌}
use mikan_judge.Sandbox.{FilePath, SandboxConfig}
use mikan_judge.Sandbox.Wait.{StatusMacros}
use mikan_judge.Sandbox.Runner.{Observed, parent_collect, run_sandboxed}
use mikan_judge.Sandbox.Cgroup.{
  CgroupSystem, Cgroups, base, has, without, enable_memory, ensure_cgroup_dir, create_run_dir,
  new_cgroup, run_dir, add_process, drop_cgroup, enter, peak_of, forked, piped, run_in_cgroup,
}

without-head : (dir : FilePath) (dirs : List FilePath) → without dir (dir ∷ dirs) ≡ dirs
unfolding without
without-head dir dirs = rw (eq_refl dir) refl

-- The folders with that of the run, if it has one.
with_own : Option FilePath → List FilePath → List FilePath
with_own none before = before
with_own (some dir) before = dir ∷ before

module _ (sys : CgroupSystem) where
  enable_memory-folders :
      (dir : FilePath) (s : Cgroups) → (enable_memory sys dir s).folders ≡ s.folders
  unfolding enable_memory
  enable_memory-folders dir s = ground arith

  ensure_cgroup_dir-eq :
      (dir : FilePath) (s : Cgroups)
      → has dir s.folders ≡ true
      → ensure_cgroup_dir sys dir s ≡ (true, enable_memory sys dir s)
  unfolding ensure_cgroup_dir
  ensure_cgroup_dir-eq dir s there = rw there refl

  enter-folders :
      (pid : ℕ) (g : Option FilePath) (s : Cgroups) → (enter sys pid g s).folders ≡ s.folders
  unfolding add_process
  enter-folders pid none s = refl
  enter-folders pid (some dir) s = ground arith

  create_run_dir-folders :
      (s : Cgroups) → (create_run_dir sys s).1.folders ≡ with_own (create_run_dir sys s).0 s.folders
  unfolding create_run_dir with_own
  create_run_dir-folders s =
      elim (Bool-cases (sys.create_dir (run_dir sys s) && not (has (run_dir sys s) s.folders))) [
        | inl made ↦ rw made refl
        | inr refused ↦ rw refused refl
      ]

  new_cgroup-folders :
      (s : Cgroups)
      → has base s.folders ≡ true
      → (new_cgroup sys s).1.folders ≡ with_own (new_cgroup sys s).0 s.folders
  unfolding new_cgroup
  new_cgroup-folders s there =
      let s' = enable_memory sys base s in
      rw (ensure_cgroup_dir-eq base s there) (
        create_run_dir-folders s'
        ∙ ap (with_own (create_run_dir sys s').0) (enable_memory-folders base s))

  drop_cgroup-folders :
      ((dir : FilePath) → sys.remove_dir dir ≡ true)
      → (g : Option FilePath) (s : Cgroups) (before : List FilePath) → s.folders ≡ with_own g before
      → (drop_cgroup sys g s).folders ≡ before
  unfolding drop_cgroup with_own
  drop_cgroup-folders removes none s before same = same
  drop_cgroup-folders removes (some dir) s before same =
      rw (removes dir) (ap (without dir) same ∙ without-head dir before)

  module _ (m : StatusMacros) (o : Observed) (fuel : ℕ) (config : SandboxConfig) where
    forked-folders :
        ((dir : FilePath) → sys.remove_dir dir ≡ true)
        → (g : Option FilePath) (fork : Outcome ℕ) (s : Cgroups) (before : List FilePath)
        → Settles fork
        → s.folders ≡ with_own g before
        → (forked sys m o fuel config g fork s).1.folders ≡ before
    unfolding forked
    forked-folders removes g (ok child) s before h same =
        drop_cgroup-folders removes g (enter sys child g s) before (enter-folders child g s ∙ same)
    forked-folders removes g (err e) s before h same = drop_cgroup-folders removes g s before same
    forked-folders removes g panic s before h same = absurd h
    forked-folders removes g out_of_fuel s before h same = absurd h

    piped-folders :
        ((dir : FilePath) → sys.remove_dir dir ≡ true)
        → (made : Outcome (Unit {0})) (s : Cgroups) → Settles o.fork
        → has base s.folders ≡ true
        → (piped sys m o fuel config made s).1.folders ≡ s.folders
    unfolding piped
    piped-folders removes (ok _) s h there =
        forked-folders removes (new_cgroup sys s).0 o.fork (new_cgroup sys s).1 s.folders h
          (new_cgroup-folders s there)
    piped-folders removes (err e) s h there = refl
    piped-folders removes panic s h there = refl
    piped-folders removes out_of_fuel s h there = refl

    run_in_cgroup-folders :
        ((dir : FilePath) → sys.remove_dir dir ≡ true)
        → (s : Cgroups) → Settles o.fork
        → has base s.folders ≡ true
        → (run_in_cgroup sys m o fuel config s).1.folders ≡ s.folders
    unfolding run_in_cgroup
    run_in_cgroup-folders removes s h there = piped-folders removes o.pipes s h there

    -- The result of what follows `fork`, as that of a run without the frame.
    forked-result :
        (g : Option FilePath) (fork : Outcome ℕ) (s : Cgroups)
        → (forked sys m o fuel config g fork s).0
          ≡ (do child ← fork; parent_collect m (peak_of g o) fuel child config)
    unfolding forked
    forked-result g (ok child) s = refl
    forked-result g (err e) s = refl
    forked-result g panic s = refl
    forked-result g out_of_fuel s = refl

    piped-result :
        (made : Outcome (Unit {0})) (s : Cgroups)
        → (piped sys m o fuel config made s).0 ≡ (do
          made
          child ← o.fork
          parent_collect m (peak_of (new_cgroup sys s).0 o) fuel child config)
    unfolding piped
    piped-result (ok _) s = forked-result (new_cgroup sys s).0 o.fork (new_cgroup sys s).1
    piped-result (err e) s = refl
    piped-result panic s = refl
    piped-result out_of_fuel s = refl

    peak_of-run_sandboxed :
        (g : Option FilePath)
        → (do o.pipes; child ← o.fork; parent_collect m (peak_of g o) fuel child config)
          ≡ run_sandboxed m (peak_of g o) fuel config
    unfolding run_sandboxed
    peak_of-run_sandboxed none = refl
    peak_of-run_sandboxed (some dir) = refl

    -- If the folder of all runs is there, the kernel removes what it is asked to, and `fork`
    -- returns, a run returns what run_sandboxed does with the peak of its cgroup (none where the
    -- cgroup was refused), and it leaves the folders as they were.
    pub run_in_cgroup-result :
        ((dir : FilePath) → sys.remove_dir dir ≡ true)
        → (s : Cgroups) → Settles o.fork
        → has base s.folders ≡ true
        → ((run_in_cgroup sys m o fuel config s).0
            ≡ run_sandboxed m (peak_of (new_cgroup sys s).0 o) fuel config)
          × ((run_in_cgroup sys m o fuel config s).1.folders ≡ s.folders)
    unfolding run_in_cgroup
    run_in_cgroup-result removes s h there = (
      piped-result o.pipes s ∙ peak_of-run_sandboxed (new_cgroup sys s).0,
      run_in_cgroup-folders removes s h there,
    )
