-- ===== src/Worker/Judge/Writes.antt =====
-- The queries that `judge` of src/worker/mod.rs makes, for every schedule of outages: which rows they
-- leave alone, and what they write where the server answers.
use mathlib.Core.Option
use mikan_judge.Prelude.{◌≡◌, ◌≢◌, refl, ◌∙◌, String, Option, none, some, List, [], ◌∷◌}
use mikan_judge.Prelude.Outcome.{Outcome, ok, err, panic, out_of_fuel}
use mikan_judge.Types.Status.{JudgeStatus, running, internal_error}
use mikan_judge.Types.Records.{Uuid}
use mikan_judge.Sandbox.{FilePath, CompileOutput}
use mikan_judge.Db.{Database, SubmissionRow, Db, attempt}
use mikan_judge.Db.Submission.{
  Json, Results, find_row, update_rows, with_results, with_status, update_result, update_status,
}
use mikan_judge.Db.Submission.Rows.{find_row-update_rows, find_row-update_rows_ne}
use mikan_judge.Worker.{JudgeJob, Host}
use mikan_judge.Worker.Judge.{
  Progress, set_status, conclude, judge_compiled, judge_in, run_compiled, judge, final_results,
  compile_error_results,
}

-- The row of a submission after a query that fails or not.
module _ (j : Uuid) where
  abbrev pub row : Database → Option SubmissionRow
  row db = find_row j db.submissions

  attempt-row :
      {A : Type 0} (os : List (Option String)) (q : Db A) (db : Database)
      → ((d : Database) → row (q d).1 ≡ row d)
      → row (attempt os q db).1 ≡ row db
  attempt-row [] q db h = h db
  attempt-row (none ∷ rest) q db h = h (record db { outages = rest })
  attempt-row (some e ∷ rest) q db h = refl

attempt-nil :
    {A : Type 0} (os : List (Option String)) (q : Db A) (db : Database)
    → os ≡ []
    → attempt os q db ≡ q db
attempt-nil [] q db e = refl
attempt-nil (o ∷ os) q db e = cc

with_status-id : (s : JudgeStatus) (r : SubmissionRow) → (with_status s r).id ≡ r.id
unfolding with_status
with_status-id s r = refl

with_results-id :
    (json : Json) (res : Results) (r : SubmissionRow) → (with_results json res r).id ≡ r.id
unfolding with_results
with_results-id json res r = refl

module _ (json : Json) (id : Uuid) where
  pub set_status-row_ne :
      (s : JudgeStatus) (j : Uuid) (db : Database) → j ≢ id → row j (set_status id s db) ≡ row j db
  unfolding set_status update_status
  set_status-row_ne s j db h =
      attempt-row j db.outages _ db
        (λ d. find_row-update_rows_ne id (with_status s) (with_status-id s) j d.submissions h)

  update_result-row_ne :
      (res : Results) (j : Uuid) (db : Database)
      → j ≢ id
      → row j (update_result json id res db).1 ≡ row j db
  unfolding update_result
  update_result-row_ne res j db h = attempt-row j db.outages _ db (λ d.
      find_row-update_rows_ne id (with_results json res) (with_results-id json res) j d.submissions
        h)

  update_status-nil :
      (s : JudgeStatus) (db : Database)
      → db.outages ≡ []
      → update_status id s db
        ≡ (ok tt, record db { submissions = update_rows id (with_status s) db.submissions })
  unfolding update_status
  update_status-nil s db e = attempt-nil db.outages _ db e

  pub update_result-nil :
      (res : Results) (db : Database)
      → db.outages ≡ []
      → update_result json id res db
        ≡ (ok tt, record db { submissions = update_rows id (with_results json res) db.submissions })
  unfolding update_result
  update_result-nil res db e = attempt-nil db.outages _ db e

  -- Without outages, what is written stands in the row, and there are still no outages.
  pub set_status-row :
      (s : JudgeStatus) (db : Database)
      → db.outages ≡ []
      → ((set_status id s db).outages ≡ [])
        × (row id (set_status id s db) ≡ Option.map (with_status s) (row id db))
  unfolding set_status
  set_status-row s db e =
      rw (set_status, update_status-nil s db e)
        (e, find_row-update_rows id (with_status s) (with_status-id s) db.submissions)

  pub update_result-row :
      (res : Results) (db : Database)
      → db.outages ≡ []
      → row id (update_result json id res db).1 ≡ Option.map (with_results json res) (row id db)
  update_result-row res db e =
      rw (update_result-nil res db e)
        (find_row-update_rows id (with_results json res) (with_results-id json res) db.submissions)

module _ (json : Json) (host : Host) (job : JudgeJob) (j : Uuid) (other : j ≢ job.id) where
  conclude-row_ne :
      (o : Outcome Progress) (db : Database) → row j (conclude json host job o db).1 ≡ row j db
  unfolding conclude
  conclude-row_ne (ok p) db =
      update_result-row_ne json job.id (final_results job.judge_type p) j db other
  conclude-row_ne (err e) db = set_status-row_ne json job.id (internal_error e) j db other
  conclude-row_ne panic db = refl
  conclude-row_ne out_of_fuel db = refl

  run_compiled-row_ne :
      (work_dir : FilePath) (c : CompileOutput) (error : Option String) (db : Database)
      → row j (run_compiled json host job work_dir c error db).1 ≡ row j db
  unfolding run_compiled
  run_compiled-row_ne work_dir c none db = conclude-row_ne _ db
  run_compiled-row_ne work_dir c (some message) db =
      update_result-row_ne json job.id (compile_error_results message) j db other

  judge_compiled-row_ne :
      (work_dir : FilePath) (o : Outcome CompileOutput) (db : Database)
      → row j (judge_compiled json host job work_dir o db).1 ≡ row j db
  unfolding judge_compiled
  judge_compiled-row_ne work_dir (ok c) db = run_compiled-row_ne work_dir c c.error db
  judge_compiled-row_ne work_dir (err e) db =
      set_status-row_ne json job.id (internal_error e) j db other
  judge_compiled-row_ne work_dir panic db = refl
  judge_compiled-row_ne work_dir out_of_fuel db = refl

  pub judge_in-row_ne :
      (o : Outcome FilePath) (db : Database) → row j (judge_in json host job o db).1 ≡ row j db
  unfolding judge_in
  judge_in-row_ne (ok work_dir) db = judge_compiled-row_ne work_dir _ db
  judge_in-row_ne (err e) db = set_status-row_ne json job.id (internal_error e) j db other
  judge_in-row_ne panic db = refl
  judge_in-row_ne out_of_fuel db = refl

-- Judging a job leaves the row of every other submission as it is, whatever fails on the way.
pub judge-row_ne :
    (json : Json) (host : Host) (job : JudgeJob) (j : Uuid) (db : Database)
    → j ≢ job.id
    → row j (judge json host job db).1 ≡ row j db
unfolding judge
judge-row_ne json host job j db other =
    judge_in-row_ne json host job j other host.tempdir (set_status job.id running db)
    ∙ set_status-row_ne json job.id running j db other
