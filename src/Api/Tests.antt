-- ===== src/Api/Tests.antt =====
-- A small site with one contest and one problem, and the theorems about submitting at it.
use mikan_judge.Prelude.{
  arith, ◌≡◌, ◌↔◌, ◌⊎◌, refl, true, false, none, some, [], ◌∷◌, utf8_len, IsSorted,
}
use mikan_judge.Prelude.{trim, format}
use mikan_judge.Types.Language.{is_interpreted, compiler, compile_args}
use mikan_judge.Sandbox.Wait.{wait_loop, determine_status}
use mikan_judge.Sandbox.Pipes.{drain_fd}
use mikan_judge.Sandbox.Runner.{run_sandboxed}
use mikan_judge.Sandbox.Compile.{compile, resolve_command}
use mikan_judge.Worker.{judge_case, sandbox_config}
use mikan_judge.Prelude.{All}
use mikan_judge.Types.Language.{from_db}
use mikan_judge.Types.Status.{accepted, is_success}
use mikan_judge.Types.Records.{Submission}
use mikan_judge.Worker.Tests.{host, compiled, both}
use mikan_judge.Worker.Judge.Result.{Runs}
use mikan_judge.Api.{result}
use mikan_judge.Api.Views.{api_get_result}
use mikan_judge.Api.Views.Tests.{viewing}
use mikan_judge.Api.Submit.{contest_job}
use mikan_judge.Api.Submit.Judged.{judged_world, api_get_result-judged}
use mikan_judge.Prelude.Int.{pos}
use mikan_judge.Types.Language.{rust}
use mikan_judge.Types.Status.{exact, judge_type_from_db}
use mikan_judge.Types.Contest.{Contest, status}
use mikan_judge.Types.Records.{SubmitRequest}
use mikan_judge.Db.{ContestRow}
use mikan_judge.Db.Contest.{into_contest, soonest_first, grouped}
use mikan_judge.Db.Contest.Grouped.{Splits, grouped-Splits}
use mikan_judge.Db.Submission.{violates}
use mikan_judge.Problem.Tests.{files, problem_a, load_one_a}
use mikan_judge.Api.{World, source_code_too_large}
use mikan_judge.Api.Sessions.{user, millis, lookup, check_submit_cooldown}
use mikan_judge.Api.Submit.{
  Request, ProblemSubmitForm, contest_problem_submit, problems_submit, api_submit, api_submission,
  api_job,
}
use mikan_judge.Api.Submit.Accepted.{Quiet, Stored}
use mikan_judge.Api.Submit.InContest
use mikan_judge.Api.Submit.Direct
use mikan_judge.Api.Submit.Stores.{Passes}
use mikan_judge.Api.Submit.Again.{contest_problem_submit_again}

abbrev pub rq : Request
rq = record {
  fs = files;
  problems_dir = "/p";
  id = 9;
  status_at = 150;
  checked_at = 20_000_000_000;
  stored_at = 20_000_000_001;
  recorded_at = 20_000_000_002;
  print_uuid = λ id. "nine";
}

abbrev pub form : ProblemSubmitForm
form = record { language = "rust"; source_code = "fn main(){}" }

abbrev contest_row : ContestRow
contest_row = record {
  id = "c";
  title = "Spring";
  description = "";
  start_time = 100;
  end_time = 200;
  judge_type = "exact";
}

abbrev pub contest : Contest
contest = record {
  id = "c";
  title = "Spring";
  description = "";
  start_time = 100;
  end_time = 200;
  judge_type = exact;
}

abbrev pub site : World
site = record {
  db = record {
    users = (record { id = 3; username = "ann"; password_hash = ""; default_language = none }) ∷ [];
    submissions = [];
    contests = contest_row ∷ [];
    contest_problems = [];
    tower_sessions = [];
    ties = λ page id. id;
    outages = [];
  };
  session = some (("last_submit_at", millis (pos 9_000)) ∷ ("user_id", user 3) ∷ []);
  queue = [];
  is_open = true;
}

pub passes : Passes rq "c" "a" form site 3 contest problem_a
unfolding lookup into_contest check_submit_cooldown source_code_too_large utf8_len violates status
    judge_type_from_db
passes = record {
  user = refl;
  found = refl;
  begun = λ u. cc;
  small = refl;
  cooled = refl;
  loaded = load_one_a;
  answers = refl;
  fits = refl;
  receives = refl;
}

contest_problem_submit_again_example :
    (contest_problem_submit
      (record rq { checked_at = rq.recorded_at })
      "c"
      "b"
      form
      (contest_problem_submit rq "c" "a" form site).1).1
    ≡ (contest_problem_submit rq "c" "a" form site).1
contest_problem_submit_again_example =
    contest_problem_submit_again rq "c" "a" form site 3 contest problem_a passes
      (record rq { checked_at = rq.recorded_at }) "b" form (omega arith)

judged : Runs host (contest_job rq form exact problem_a) "/tmp/a" compiled viewing.json both
unfolding compile judge_case run_sandboxed wait_loop determine_status drain_fd trim is_interpreted
    compiler compile_args resolve_command format sandbox_config from_db
judged = record { made = refl; compiled = refl; clean = refl; ran = refl }

api_get_result-judged_example :
    (sub : Submission) × ((api_get_result viewing 9 (
        judged_world rq "c" "a" form site 3 contest problem_a passes viewing host "/tmp/a" compiled
          both judged)).0
      ≡ result sub)
    × (sub.user_id ≡ some 3)
    × (sub.contest_id ≡ some "c")
    × (sub.problem_id ≡ "a")
    × (sub.source_code ≡ form.source_code)
    × ((sub.status ≡ accepted) ↔ All (λ c. is_success c.status ≡ true) both)
api_get_result-judged_example =
    api_get_result-judged rq "c" "a" form site 3 contest problem_a passes viewing host "/tmp/a"
      compiled both judged refl

contest_problem_submit-Ends_example :
    InContest.Ends rq "c" "a" form site (contest_problem_submit rq "c" "a" form site).1
contest_problem_submit-Ends_example = InContest.contest_problem_submit-Ends rq "c" "a" form site

problems_submit-Ends_example : Direct.Ends rq "a" form site (problems_submit rq "a" form site).1
problems_submit-Ends_example = Direct.problems_submit-Ends rq "a" form site

abbrev req : SubmitRequest
req = record {
  source_code = "fn main(){}";
  language = rust;
  problem_id = "a";
  stdin = "1 2";
  expected_output = "3";
  time_limit_ms = 1000;
  memory_limit_kb = 1024;
}

api_submit-Stored_example :
    Quiet site (api_submit rq req site).1
    ⊎ ((source_code_too_large req.source_code ≡ false)
        × Stored rq.stored_at
            (api_submission rq req)
            (api_job rq req)
            site.session
            site
            (api_submit rq req site).1)
api_submit-Stored_example = Direct.api_submit-Stored rq req site

grouped-Splits_example :
    Splits
      (λ i. 150)
      (contest ∷ record contest { start_time = 160 } ∷ [])
      (grouped (λ i. 150) (contest ∷ record contest { start_time = 160 } ∷ []))
    × IsSorted soonest_first
        (grouped (λ i. 150) (contest ∷ record contest { start_time = 160 } ∷ [])).upcoming
grouped-Splits_example =
    grouped-Splits (λ i. 150) (contest ∷ record contest { start_time = 160 } ∷ [])
