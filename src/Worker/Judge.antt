-- ===== src/Worker/Judge.antt =====
-- `judge` and `set_status` of src/worker/mod.rs: compiling, the loop over the cases, and what is
-- written to the submission. A failed write is only logged, so the database goes on as it is.
pub mod Loop
pub mod Writes
pub mod Numbers
pub mod Final
pub mod Result
pub mod Returns
use mikan_judge.Prelude.{
  ℕ, suc, String, Option, none, some, List, [], ◌∷◌, ◌++◌, ◌&&◌, not, ltb, if◌then◌else◌,
}
use mikan_judge.Prelude.Outcome.{Outcome, ok, err, panic, out_of_fuel, ◌>>=◌}
use mikan_judge.Types.Status.{
  JudgeType, JudgeStatus, running, accepted, wrong_answer, time_limit_exceeded,
  memory_limit_exceeded, runtime_error, compile_error, internal_error, scored, is_heuristic,
  is_success,
}
use mikan_judge.Types.Records.{Uuid, F64, f64_zero, FloatOps, TestcaseVerdict}
use mikan_judge.Sandbox.{FilePath, CompileOutput}
use mikan_judge.Sandbox.Compile.{compile}
use mikan_judge.Db.{Database}
use mikan_judge.Db.Submission.{Json, Results, update_result, update_status}
use mikan_judge.Worker.{JudgeJob, Host, CaseOutcome, judge_case}

unfoldable pub set_status : Uuid → JudgeStatus → Database → Database
set_status id status db = (update_status id status db).1

unfoldable pub verdict_str : JudgeStatus → String
verdict_str accepted = "AC"
verdict_str wrong_answer = "WA"
verdict_str time_limit_exceeded = "TLE"
verdict_str memory_limit_exceeded = "MLE"
verdict_str (runtime_error _) = "RE"
verdict_str scored = "SCORED"
verdict_str _ = "IE"

-- The variables of the loop.
pub record Progress : Type 0 where
  pub final_status : JudgeStatus
  pub max_time_ms : ℕ
  pub max_memory_kb : ℕ
  pub first_fail_stdout : String
  pub first_fail_stderr : String
  pub tc_verdicts : List TestcaseVerdict
  pub total_score : F64

abbrev pub initial_status : JudgeType → JudgeStatus
initial_status t = if is_heuristic t then scored else accepted

unfoldable pub begin : JudgeType → Progress
begin t = record {
  final_status = initial_status t;
  max_time_ms = 0;
  max_memory_kb = 0;
  first_fail_stdout = "";
  first_fail_stderr = "";
  tc_verdicts = [];
  total_score = f64_zero;
}

unfoldable pub verdict_of : CaseOutcome → TestcaseVerdict
unfolding verdict_str
verdict_of c = record {
  verdict = verdict_str c.status;
  time_ms = some c.time_ms;
  memory_kb = some c.memory_kb;
  score = c.score;
}

abbrev add_score : FloatOps → F64 → Option F64 → F64
add_score floats total none = total
add_score floats total (some s) = floats.add total s

-- The rest of the round, with the verdict of the case at hand.
unfoldable pub record_case : FloatOps → Progress → CaseOutcome → Progress
unfolding verdict_of
record_case floats p c =
    let failed_first = is_success p.final_status && not (is_success c.status) in
    record {
      final_status = if failed_first then c.status else p.final_status;
      max_time_ms = if ltb p.max_time_ms c.time_ms then c.time_ms else p.max_time_ms;
      max_memory_kb = if ltb p.max_memory_kb c.memory_kb then c.memory_kb else p.max_memory_kb;
      first_fail_stdout = if failed_first then c.stdout else p.first_fail_stdout;
      first_fail_stderr = if failed_first then c.stderr else p.first_fail_stderr;
      tc_verdicts = p.tc_verdicts ++ verdict_of c ∷ [];
      total_score = add_score floats p.total_score c.score;
    }

-- `if n > 0 { Some(n) } else { None }`
abbrev pub positive : ℕ → Option ℕ
positive n = if ltb 0 n then some n else none

unfoldable pub final_results : JudgeType → Progress → Results
final_results t p = record {
  status = p.final_status;
  time_used_ms = positive p.max_time_ms;
  memory_used_kb = positive p.max_memory_kb;
  stdout = some (if is_success p.final_status then "" else p.first_fail_stdout);
  stderr = some (if is_success p.final_status then "" else p.first_fail_stderr);
  testcase_results = some p.tc_verdicts;
  score = if is_heuristic t then some p.total_score else none;
}

unfoldable pub compile_error_results : String → Results
compile_error_results message = record {
  status = compile_error message;
  time_used_ms = none;
  memory_used_kb = none;
  stdout = none;
  stderr = some message;
  testcase_results = none;
  score = none;
}

module _ (json : Json) (host : Host) (job : JudgeJob) where
  unfoldable pub judge_cases :
      FilePath → CompileOutput → ℕ → List (String × Option String) → Progress → Outcome Progress
  unfolding record_case
  judge_cases work_dir compiled i [] p = ok p
  judge_cases work_dir compiled i (tc ∷ tcs) p = do
    c ← judge_case host job work_dir compiled i tc
    judge_cases work_dir compiled (suc i) tcs (record_case host.floats p c)

  -- What follows the loop, or ends it where a run has failed.
  unfoldable pub conclude : Outcome Progress → Database → Outcome (Unit {0}) × Database
  unfolding final_results set_status
  conclude (ok p) db = (ok tt, (update_result json job.id (final_results job.judge_type p) db).1)
  conclude (err e) db = (ok tt, set_status job.id (internal_error e) db)
  conclude panic db = (panic, db)
  conclude out_of_fuel db = (out_of_fuel, db)

  run_compiled : FilePath → CompileOutput → Option String → Database → Outcome (Unit {0}) × Database
  run_compiled work_dir compiled (some message) db =
      (ok tt, (update_result json job.id (compile_error_results message) db).1)
  run_compiled work_dir compiled none db =
      conclude (judge_cases work_dir compiled 0 job.testcases (begin job.judge_type)) db

  unfoldable pub judge_compiled :
      FilePath → Outcome CompileOutput → Database → Outcome (Unit {0}) × Database
  unfolding conclude run_compiled begin compile_error_results set_status
  judge_compiled work_dir (ok compiled) db = run_compiled work_dir compiled compiled.error db
  judge_compiled work_dir (err e) db = (ok tt, set_status job.id (internal_error e) db)
  judge_compiled work_dir panic db = (panic, db)
  judge_compiled work_dir out_of_fuel db = (out_of_fuel, db)

  pub judge_in : Outcome FilePath → Database → Outcome (Unit {0}) × Database
  judge_in (ok work_dir) db =
      judge_compiled work_dir (compile host.system job.source_code job.language work_dir) db
  judge_in (err e) db = (ok tt, set_status job.id (internal_error e) db)
  judge_in panic db = (panic, db)
  judge_in out_of_fuel db = (out_of_fuel, db)

  unfoldable pub judge : Database → Outcome (Unit {0}) × Database
  unfolding judge_in judge_compiled set_status
  judge db = judge_in host.tempdir (set_status job.id running db)
