-- ===== src/Db/Submission.antt =====
-- db/submission.rs: the rows of `submissions` and the queries on single rows.
pub mod Rows
pub mod Numbers
pub mod RoundTrip
use mikan_judge.Prelude.{
  ℕ, String, Bool, true, Option, none, some, List, [], ◌∷◌, ◌++◌, map, find, eqb, ◌==◌, is_some,
  unwrap_or, and_then, if◌then◌else◌, ◌||◌, not,
}
use mikan_judge.Prelude.Int.{to_i64, to_u64}
use mathlib.Core.Option
use mikan_judge.Prelude.Outcome.{ok, err}
use mikan_judge.Types.Contest.{DateTime}
use mikan_judge.Types.Language.{to_db, from_db}
use mikan_judge.Types.Status.{JudgeStatus, status_to_db, status_from_db}
use mikan_judge.Types.Records.{Uuid, F64, Submission, TestcaseVerdict}
use mikan_judge.Db.{Database, SubmissionRow, Db, query}

-- serde_json on the verdicts of a submission, in the new form and the old one.
pub record Json : Type 0 where
  pub write_verdicts : List TestcaseVerdict → Option String
  pub read_verdicts : String → Option (List TestcaseVerdict)
  pub read_strings : String → Option (List String)

abbrev bare_verdict : String → TestcaseVerdict
bare_verdict v = record { verdict = v; time_ms = none; memory_kb = none; score = none }

unfoldable pub read_results : Json → String → Option (List TestcaseVerdict)
read_results json s = elim (json.read_verdicts s) [
  | some v ↦ some v
  | none ↦ Option.map (map bare_verdict) (json.read_strings s)
]

unfoldable pub into_submission : Json → SubmissionRow → Submission
unfolding read_results
into_submission json r = record {
  id = r.id;
  user_id = r.user_id;
  contest_id = r.contest_id;
  source_code = r.source_code;
  language = from_db r.language;
  problem_id = r.problem_id;
  status = status_from_db r.status;
  time_used_ms = Option.map to_u64 r.time_used_ms;
  memory_used_kb = Option.map to_u64 r.memory_used_kb;
  stdout = r.stdout;
  stderr = r.stderr;
  testcase_results = and_then r.testcase_results (read_results json);
  score = r.score;
}

-- The row of `INSERT INTO submissions`, with the defaults of the columns that it leaves out.
abbrev pub inserted_row : DateTime → Submission → SubmissionRow
inserted_row now sub = record {
  id = sub.id;
  user_id = sub.user_id;
  contest_id = sub.contest_id;
  problem_id = sub.problem_id;
  language = to_db sub.language;
  source_code = sub.source_code;
  status = status_to_db sub.status;
  time_used_ms = none;
  memory_used_kb = none;
  stdout = none;
  stderr = none;
  testcase_results = none;
  score = none;
  created_at = now;
}

-- The constraints of the table: a fresh primary key, and foreign keys that are there.
abbrev pub has_user : Database → Option Uuid → Bool
has_user db none = true
has_user db (some uid) = is_some (find (λ u. eqb u.id uid) db.users)

abbrev pub has_contest : Database → Option String → Bool
has_contest db none = true
has_contest db (some cid) = is_some (find (λ c. c.id == cid) db.contests)

abbrev pub find_row : Uuid → List SubmissionRow → Option SubmissionRow
find_row id rows = find (λ r. eqb r.id id) rows

unfoldable pub violates : Database → Submission → Bool
violates db sub =
    is_some (find_row sub.id db.submissions)
    || not (has_user db sub.user_id)
    || not (has_contest db sub.contest_id)

abbrev pub violation : String
violation = "constraint violation"

-- `now` is the server's `NOW()`.
abbrev pub insert_query : DateTime → Submission → Db (Unit {0})
insert_query now sub db =
    if violates db sub
    then (err violation, db)
    else (ok tt, record db { submissions = db.submissions ++ inserted_row now sub ∷ [] })

unfoldable pub insert : DateTime → Submission → Db (Unit {0})
unfolding violates
insert now sub = query (insert_query now sub)

abbrev pub get_query : Json → Uuid → Db (Option Submission)
get_query json id db = (ok (Option.map (into_submission json) (find_row id db.submissions)), db)

unfoldable pub get_by_id : Json → Uuid → Db (Option Submission)
unfolding into_submission
get_by_id json id = query (get_query json id)

-- `UPDATE submissions SET … WHERE id = …`
abbrev pub update_rows :
    Uuid → (SubmissionRow → SubmissionRow) → List SubmissionRow → List SubmissionRow
update_rows id f rows = map (λ r. if eqb r.id id then f r else r) rows

pub record Results : Type 0 where
  pub status : JudgeStatus
  pub time_used_ms : Option ℕ
  pub memory_used_kb : Option ℕ
  pub stdout : Option String
  pub stderr : Option String
  pub testcase_results : Option (List TestcaseVerdict)
  pub score : Option F64

unfoldable pub with_results : Json → Results → SubmissionRow → SubmissionRow
with_results json res r = record r {
  status = status_to_db res.status;
  time_used_ms = Option.map to_i64 res.time_used_ms;
  memory_used_kb = Option.map to_i64 res.memory_used_kb;
  stdout = res.stdout;
  stderr = res.stderr;
  testcase_results = Option.map (λ v. unwrap_or (json.write_verdicts v) "") res.testcase_results;
  score = res.score;
}

unfoldable pub update_result : Json → Uuid → Results → Db (Unit {0})
unfolding with_results
update_result json id res =
    query λ db.
      (ok tt, record db { submissions = update_rows id (with_results json res) db.submissions })

unfoldable pub with_status : JudgeStatus → SubmissionRow → SubmissionRow
with_status status r = record r { status = status_to_db status }

unfoldable pub update_status : Uuid → JudgeStatus → Db (Unit {0})
unfolding with_status
update_status id status =
    query
      λ db. (ok tt, record db { submissions = update_rows id (with_status status) db.submissions })
