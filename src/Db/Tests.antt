-- ===== src/Db/Tests.antt =====
-- One stored submission, and the theorem about its results at it.
use mikan_judge.Prelude.{◌≡◌, refl, none, some, List, [], ◌∷◌, arith}
use mikan_judge.Prelude.Outcome.{ok}
use mikan_judge.Types.Status.{wrong_answer}
use mikan_judge.Types.Records.{Submission, TestcaseVerdict}
use mikan_judge.Db.{Database, SubmissionRow}
use mikan_judge.Db.Submission.{Json, Results, get_by_id, update_result}
use mikan_judge.Db.Submission.RoundTrip.{Holds, get_by_id-update_result}

abbrev verdicts : List TestcaseVerdict
verdicts = (record { verdict = "WA"; time_ms = some 8; memory_kb = some 300; score = none }) ∷ []

abbrev json : Json
json = record {
  write_verdicts = λ vs. some "[WA]";
  read_verdicts = λ s. some verdicts;
  read_strings = λ s. none;
}

abbrev results : Results
results = record {
  status = wrong_answer;
  time_used_ms = some 8;
  memory_used_kb = some 300;
  stdout = some "4";
  stderr = some "";
  testcase_results = some verdicts;
  score = none;
}

abbrev row : SubmissionRow
row = record {
  id = 5;
  user_id = none;
  contest_id = none;
  problem_id = "aplusb";
  language = "rust";
  source_code = "";
  status = "running";
  time_used_ms = none;
  memory_used_kb = none;
  stdout = none;
  stderr = none;
  testcase_results = none;
  score = none;
  created_at = 0;
}

abbrev db : Database
db = record {
  users = [];
  submissions = row ∷ [];
  contests = [];
  contest_problems = [];
  tower_sessions = [];
  ties = λ page id. id;
  outages = [];
}

get_by_id-update_result_example :
    (sub : Submission) × ((get_by_id json 5 (update_result json 5 results db).1).0 ≡ ok (some sub))
    × Holds json results sub
get_by_id-update_result_example =
    get_by_id-update_result json 5 results db row refl refl (omega arith) (omega arith)
      ("[WA]", refl, refl)
