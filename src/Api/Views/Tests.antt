-- ===== src/Api/Views/Tests.antt =====
-- A contest that is on with one accepted submission, and the theorems about showing it.
use mikan_judge.Prelude.{◌≡◌, refl, true, none, some, [], ◌∷◌}
use mikan_judge.Prelude.Outcome.{ok}
use mikan_judge.Types.Language.{LanguageVersions}
use mikan_judge.Types.Contest.{status}
use mikan_judge.Db.{SubmissionRow}
use mikan_judge.Db.Contest
use mikan_judge.Db.Submission
use mathlib.Core.Option
use mikan_judge.Db.Submission.{Json, into_submission}
use mikan_judge.Problem.Tests.{files}
use mikan_judge.Api.{World, detail}
use mikan_judge.Api.Contexts.{Detail}
use mikan_judge.Api.Sessions.{user, lookup}
use mikan_judge.Api.Views.{Viewing, contest_submission_detail}
use mikan_judge.Api.Views.Owner.{Shown, contest_submission_detail-Shown}

abbrev versions : LanguageVersions
versions = record {
  cpp = "1";
  rust = "1";
  python = "3";
  pypy = "3";
  java = "21";
  go = "1";
  text = "9";
}

abbrev pub viewing : Viewing
viewing = record {
  json = record {
    write_verdicts = λ vs. some "[]";
    read_verdicts = λ s. some [];
    read_strings = λ s. some [];
  };
  fs = files;
  problems_dir = "/p";
  lang_versions = versions;
  floats = record { add = λ a b. a; parse = λ s. ok 0; print = λ x. "0" };
  first_reading = 150;
  second_reading = 151;
  is_header_value = λ s. true;
  print_uuid = λ id. "nine";
}

abbrev pub row : SubmissionRow
row = record {
  id = 9;
  user_id = some 3;
  contest_id = some "c";
  problem_id = "a";
  language = "rust";
  source_code = "fn main(){}";
  status = "accepted";
  time_used_ms = none;
  memory_used_kb = none;
  stdout = none;
  stderr = none;
  testcase_results = none;
  score = none;
  created_at = 0;
}

abbrev pub site : World
site = record {
  db = record {
    users = [];
    submissions = row ∷ [];
    contests =
        (record {
          id = "c";
          title = "Spring";
          description = "";
          start_time = 100;
          end_time = 200;
          judge_type = "exact";
        })
        ∷ [];
    contest_problems = [];
    tower_sessions = [];
    ties = λ page id. id;
    outages = [];
  };
  session = some (("user_id", user 3) ∷ []);
  queue = [];
  is_open = true;
}

shown : (d : Detail) × ((contest_submission_detail viewing "c" 9 site).0 ≡ detail d)
unfolding contest_submission_detail Contest.get_by_id Contest.into_contest status lookup
    Submission.get_by_id into_submission Contest.problems_for_contest
shown = (_, refl)

contest_submission_detail-Shown_example :
    Shown viewing "c" 9 site.db.contests site.db.submissions (some 3) shown.0
unfolding lookup
contest_submission_detail-Shown_example =
    contest_submission_detail-Shown viewing "c" 9 site shown.0 shown.1
