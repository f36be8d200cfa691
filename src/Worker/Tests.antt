-- ===== src/Worker/Tests.antt =====
-- A job with two cases on a small host, and the theorems about judging at it.
use mikan_judge.Prelude.{
  ◌≡◌, refl, ◌↔◌, String, true, false, none, some, List, [], ◌∷◌, All, trim, format, arith, eqb,
  ltb,
}
use mikan_judge.Prelude.Int.{pos}
use mikan_judge.Prelude.Outcome.{ok, err}
use mikan_judge.Types.Language.{rust, is_interpreted, compiler, compile_args}
use mikan_judge.Types.Status.{exact, accepted, wrong_answer, is_success, running}
use mikan_judge.Sandbox.{Bytes, CompileOutput, from_millis}
use mikan_judge.Sandbox.Wait.{StatusMacros, reaped, wait_loop, determine_status}
use mikan_judge.Sandbox.Pipes.{drain_fd}
use mikan_judge.Sandbox.Runner.{Observed, run_sandboxed}
use mikan_judge.Sandbox.Compile.{System, done, compile, resolve_command}
use mikan_judge.Db.{Database, SubmissionRow}
use mikan_judge.Db.Submission.{Json, with_results, with_status}
use mikan_judge.Worker.{JudgeJob, Host, CaseOutcome, judge_case, sandbox_config}
use mikan_judge.Worker.Judge.{begin, judge, judge_cases}
use mikan_judge.Worker.Judge.Loop.{outcomes, Summarises, judge_cases-Summarises, record_all}
use mikan_judge.Worker.Judge.Writes.{row, judge-row_ne}
use mikan_judge.Worker.Judge.Final.{IsJudged, judge-IsJudged}
use mikan_judge.Worker.Judge.Returns.{IsHealthy, judge_returns}
use mikan_judge.Worker.Judge.Result.{Runs, results_of, judge-row, judge-accepted_iff}

abbrev system : System
system = record {
  write_file = λ path content. ok tt;
  path_var = some ("/usr/bin" ∷ []);
  is_file = λ path. true;
  run = λ path args. ok (record { success = false; stdout = ""; stderr = "" });
  run_timed = λ seconds path args. done (record { success = true; stdout = ""; stderr = "" });
}

abbrev macros : StatusMacros
macros = record {
  wifexited = λ raw. eqb raw 0;
  wexitstatus = λ raw. pos raw;
  wifsignaled = λ raw. ltb 0 raw;
  wtermsig = λ raw. raw;
  signal_try_from = λ n. some n;
}

-- Every run prints "3" and takes 8 ms.
abbrev printed : Observed
printed = record {
  pipes = ok tt;
  fork = ok 7;
  start = 0;
  polls = λ i. reaped 0 300;
  after_kill = none;
  elapsed = from_millis 8;
  memory_peak = none;
  drains = true;
  stdout_reads = (51 ∷ []) ∷ [];
  stderr_reads = [];
}

abbrev decode : Bytes → String
decode [] = ""
decode (b ∷ bytes) = "3"

abbrev pub host : Host
host = record {
  system = system;
  tempdir = ok "/tmp/a";
  macros = macros;
  fuel = 1;
  runs = λ i. printed;
  scorer_runs = λ i. err "no scorer";
  from_utf8_lossy = decode;
  floats = record { add = λ a b. a; parse = λ s. ok 0; print = λ x. "0" };
  debug = λ s. s;
}

abbrev json : Json
json = record {
  write_verdicts = λ vs. some "[]";
  read_verdicts = λ s. some [];
  read_strings = λ s. some [];
}

abbrev job : JudgeJob
job = record {
  id = 5;
  source_code = "fn main(){println!(\"3\");}";
  language = rust;
  testcases = ("1 2", some "3\n") ∷ ("2 2", some "4\n") ∷ [];
  time_limit_ms = 2000;
  memory_limit_kb = 262144;
  judge_type = exact;
  scorer_path = none;
}

abbrev waiting : SubmissionRow
waiting = record {
  id = 5;
  user_id = none;
  contest_id = none;
  problem_id = "aplusb";
  language = "rust";
  source_code = job.source_code;
  status = "pending";
  time_used_ms = none;
  memory_used_kb = none;
  stdout = none;
  stderr = none;
  testcase_results = none;
  score = none;
  created_at = 0;
}

abbrev db : Database
db = record {
  users = [];
  submissions = waiting ∷ record waiting { id = 6 } ∷ [];
  contests = [];
  contest_problems = [];
  tower_sessions = [];
  ties = λ page id. id;
  outages = [];
}

abbrev pub compiled : CompileOutput
compiled = record { executable = "/tmp/a/solution"; run_args = []; error = none; warnings = "" }

abbrev first : CaseOutcome
first = record {
  status = accepted;
  score = none;
  time_ms = 8;
  memory_kb = 300;
  stdout = "3";
  stderr = "";
}

abbrev pub both : List CaseOutcome
both = first ∷ record first { status = wrong_answer } ∷ []

runs : Runs host job "/tmp/a" compiled json both
unfolding compile judge_case run_sandboxed wait_loop determine_status drain_fd trim is_interpreted
    compiler compile_args resolve_command format sandbox_config
runs = record { made = refl; compiled = refl; clean = refl; ran = refl }

looped :
    judge_cases json host job "/tmp/a" compiled 0 job.testcases (begin exact)
    ≡ ok (record_all host.floats (begin exact) both)
unfolding judge_cases judge_case run_sandboxed wait_loop determine_status drain_fd trim
    sandbox_config
looped = refl

judge_cases-Summarises_example :
    (cs : List CaseOutcome) × (outcomes json host job "/tmp/a" compiled 0 job.testcases ≡ ok cs)
    × Summarises host.floats exact cs (record_all host.floats (begin exact) both)
judge_cases-Summarises_example =
    judge_cases-Summarises json host job "/tmp/a" compiled
      (record_all host.floats (begin exact) both) looped

judge-row_example :
    row 5 (judge json host job db).1
    ≡ some (with_results json (results_of host exact both) (with_status running waiting))
judge-row_example = judge-row json host job "/tmp/a" compiled both runs db refl

judge-accepted_iff_example :
    (kept : SubmissionRow) × (row 5 (judge json host job db).1 ≡ some kept)
    × ((kept.status ≡ "accepted") ↔ All (λ c. is_success c.status ≡ true) both)
judge-accepted_iff_example =
    judge-accepted_iff json host job "/tmp/a" compiled both db waiting runs refl refl refl

healthy : IsHealthy host job
healthy = record {
  calm = record { writes = λ path content. tt; runs = λ path args. tt };
  tempdir = tt;
  ends = λ i. record {
    pipes = tt;
    fork = tt;
    last_poll = 0;
    in_fuel = omega arith;
    stops = tt;
    drains = refl;
  };
  scorer = λ i. tt;
  parse = λ s. tt;
}

judge_returns_example : (judge json host job db).0 ≡ ok tt
judge_returns_example = judge_returns json host job db healthy

judge-IsJudged_example : IsJudged json host job (judge json host job db).1
judge-IsJudged_example =
    judge-IsJudged json host job db waiting refl refl (judge_returns json host job db healthy)

judge-row_ne_example : row 6 (judge json host job db).1 ≡ row 6 db
judge-row_ne_example = judge-row_ne json host job 6 db (omega arith)
