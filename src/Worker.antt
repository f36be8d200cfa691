-- ===== src/Worker.antt =====
-- worker/mod.rs: the jobs of the queue, and the judging of one case. The host that a worker runs on
-- is the argument `Host`.
pub mod Judge
pub mod Pool
pub mod Tests
use mikan_judge.Prelude.{
  ℕ, ◌*◌, ◌/◌, ◌%◌, ◌^◌, String, Bool, Option, none, some, List, [], ◌∷◌, ◌==◌, ltb, not, trim,
  format, unwrap_or, if◌then◌else◌,
}
use mikan_judge.Prelude.Int.{ℤ, negsuc}
use mikan_judge.Prelude.Outcome.{Outcome, ok, err, panic, out_of_fuel, ◌>>=◌, ◌>>◌}
use mikan_judge.Types.Language.{
  Language, needs_unlimited_vm, needs_relaxed_nproc, needs_relaxed_seccomp,
}
use mikan_judge.Types.Status.{
  JudgeType, exact, heuristic, JudgeStatus, accepted, wrong_answer, time_limit_exceeded,
  memory_limit_exceeded, runtime_error, internal_error, scored, is_heuristic,
}
use mikan_judge.Types.Records.{Uuid, F64, FloatOps}
use mikan_judge.Sandbox.{
  FilePath, Bytes, from_millis, SandboxConfig, CompileOutput, RunStatus, RunResult,
}
use mikan_judge.Sandbox.Wait.{StatusMacros}
use mikan_judge.Sandbox.Runner.{Observed, run_sandboxed}
use mikan_judge.Sandbox.Compile.{System, Output, join}

pub record JudgeJob : Type 0 where
  pub id : Uuid
  pub source_code : String
  pub language : Language
  -- the input and the expected output of each case
  pub testcases : List (String × Option String)
  pub time_limit_ms : ℕ
  pub memory_limit_kb : ℕ
  pub judge_type : JudgeType
  pub scorer_path : Option FilePath

-- What one job meets: the system that compiles, the temporary folder, the kernel in the run of the
-- n-th case with the fuel for its polls, the run of the scorer on the n-th case,
-- `String::from_utf8_lossy`, the floats, and `{:?}` of a text.
pub record Host : Type 0 where
  pub system : System
  pub tempdir : Outcome FilePath
  pub macros : StatusMacros
  pub fuel : ℕ
  pub runs : ℕ → Observed
  pub scorer_runs : ℕ → Outcome Output
  pub from_utf8_lossy : Bytes → String
  pub floats : FloatOps
  pub debug : String → String

-- Arithmetic on `u64` wraps in a release build.
abbrev pub mul_u64 : ℕ → ℕ → ℕ
mul_u64 a b = a * b % 2 ^ 64

unfoldable pub sandbox_config : JudgeJob → SandboxConfig
sandbox_config job =
    let mem = mul_u64 job.memory_limit_kb 1024 in
    record {
      time_limit = from_millis job.time_limit_ms;
      max_output_bytes = 16 * 1024 * 1024;
      vm_limit_bytes = if needs_unlimited_vm job.language then none else some (mul_u64 mem 2);
      nproc_limit = if needs_relaxed_nproc job.language then none else some 1;
      enable_seccomp = not (needs_relaxed_seccomp job.language);
    }

pub record CaseOutcome : Type 0 where
  pub status : JudgeStatus
  pub score : Option F64
  pub time_ms : ℕ
  pub memory_kb : ℕ
  pub stdout : String
  pub stderr : String

-- The standard error that is shown: the compiler's warnings in front of the program's.
unfoldable pub case_stderr : String → String → String
case_stderr warnings runtime_stderr =
    if warnings == ""
    then runtime_stderr
    else if runtime_stderr == ""
    then format ("[Compile warnings]\n" ∷ warnings ∷ [])
    else format ("[Compile warnings]\n" ∷ warnings ∷ "\n[Runtime stderr]\n" ∷ runtime_stderr ∷ [])

module _ (host : Host) where
  -- `.parse::<f64>().map_err(…)` on the text of the scorer's output.
  pub parsed_score : String → Outcome F64 → Outcome F64
  parsed_score score_str (ok score) = ok score
  parsed_score score_str (err e) =
      err (format ("スコアのパース失敗 (" ∷ host.debug score_str ∷ "): " ∷ e ∷ []))
  parsed_score score_str panic = panic
  parsed_score score_str out_of_fuel = out_of_fuel

  pub scorer_result : Output → Outcome F64
  unfolding parsed_score
  scorer_result result =
      if not result.success
      then err (format ("スコアラー実行失敗: " ∷ result.stderr ∷ []))
      else parsed_score (trim result.stdout) (host.floats.parse (trim result.stdout))

  pub scored_by : FilePath → FilePath → ℕ → String → String → Outcome F64
  unfolding scorer_result
  scored_by scorer work_dir i input output = do
    host.system.write_file (join work_dir "scorer_input.txt") input
    host.system.write_file (join work_dir "scorer_output.txt") output
    result ← host.scorer_runs i
    scorer_result result

  unfoldable pub run_scorer : Option FilePath → ℕ → String → String → FilePath → Outcome F64
  unfolding scored_by
  run_scorer none i input output work_dir = err "scorer.py が見つかりません（judge_type=heuristic にも関わらず）"
  run_scorer (some scorer) i input output work_dir = scored_by scorer work_dir i input output

  module _ (job : JudgeJob) (work_dir : FilePath) where
    pub scored_status : Outcome F64 → Outcome (JudgeStatus × Option F64)
    scored_status (ok score) = ok (scored, some score)
    scored_status (err e) = ok (internal_error e, none)
    scored_status panic = panic
    scored_status out_of_fuel = out_of_fuel

    -- The match on `run.status`.
    unfoldable pub case_status :
        ℕ
        → String × Option String
        → RunResult
        → (memory_used_kb : ℕ) → (stdout : String) → RunStatus
        → Outcome (JudgeStatus × Option F64)
    unfolding run_scorer scored_status
    case_status i tc run memory_used_kb stdout RunStatus.time_limit_exceeded =
        ok (time_limit_exceeded, none)
    case_status i tc run memory_used_kb stdout RunStatus.finished =
        if is_heuristic job.judge_type
        then scored_status (run_scorer job.scorer_path i tc.0 stdout work_dir)
        else if trim stdout == trim (unwrap_or tc.1 "")
        then ok (accepted, none)
        else ok (wrong_answer, none)
    case_status i tc run memory_used_kb stdout _ = ok (
      if ltb job.memory_limit_kb memory_used_kb
          then memory_limit_exceeded
          else runtime_error (unwrap_or run.exit_code (negsuc 0)),
      none,
    )

    -- One round of the loop over the cases, up to the verdict of the case.
    unfoldable pub judge_case : CompileOutput → ℕ → String × Option String → Outcome CaseOutcome
    unfolding case_status case_stderr
    judge_case compiled i tc = do
      run ← run_sandboxed host.macros (host.runs i) host.fuel (sandbox_config job)
      let memory_used_kb = run.memory_used_bytes / 1024
      let stdout = host.from_utf8_lossy run.stdout
      (status, score) ← case_status i tc run memory_used_kb stdout run.status
      ok (record {
        status = status;
        score = score;
        time_ms = run.wall_time_used / 1_000_000 % 2 ^ 64;
        memory_kb = memory_used_kb;
        stdout = stdout;
        stderr = case_stderr compiled.warnings (host.from_utf8_lossy run.stderr);
      })
