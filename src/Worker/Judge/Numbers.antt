-- ===== src/Worker/Judge/Numbers.antt =====
-- The queries of `judge` of src/worker/mod.rs leave as many rows with an id as there were.
use mikan_judge.Prelude.{◌≡◌, refl, Option, none, some, String}
use mikan_judge.Prelude.Outcome.{Outcome}
use mikan_judge.Types.Status.{JudgeStatus}
use mikan_judge.Types.Records.{Uuid}
use mikan_judge.Db.{Database}
use mikan_judge.Db.Submission.{Json, update_status, with_status}
use mikan_judge.Db.Submission.Numbers.{
  number, Keeps, query-Keeps, update_rows-Keeps, update_result-Keeps,
}
use mikan_judge.Sandbox.{FilePath, CompileOutput}
use mikan_judge.Worker.{JudgeJob, Host}
use mikan_judge.Worker.Judge.{
  Progress, set_status, conclude, judge_compiled, judge_in, run_compiled,
}

module _ (id : Uuid) where
  pub set_status-Keeps :
      (j : Uuid) (s : JudgeStatus) (db : Database)
      → number id (set_status j s db).submissions ≡ number id db.submissions
  unfolding set_status update_status with_status
  set_status-Keeps j s db =
      query-Keeps id _ (λ d. update_rows-Keeps id j (with_status s) (λ r. refl) d.submissions) db

  module _ (json : Json) (host : Host) (job : JudgeJob) where
    conclude-Keeps : (o : Outcome Progress) → Keeps id (conclude json host job o)
    unfolding conclude
    conclude-Keeps (Outcome.ok p) db = update_result-Keeps id json job.id _ db
    conclude-Keeps (Outcome.err e) db = set_status-Keeps job.id _ db
    conclude-Keeps Outcome.panic db = refl
    conclude-Keeps Outcome.out_of_fuel db = refl

    run_compiled-Keeps :
        (work_dir : FilePath) (c : CompileOutput) (error : Option String)
        → Keeps id (run_compiled json host job work_dir c error)
    unfolding run_compiled
    run_compiled-Keeps work_dir c none db = conclude-Keeps _ db
    run_compiled-Keeps work_dir c (some message) db = update_result-Keeps id json job.id _ db

    judge_compiled-Keeps :
        (work_dir : FilePath) (o : Outcome CompileOutput)
        → Keeps id (judge_compiled json host job work_dir o)
    unfolding judge_compiled
    judge_compiled-Keeps work_dir (Outcome.ok c) db = run_compiled-Keeps work_dir c c.error db
    judge_compiled-Keeps work_dir (Outcome.err e) db = set_status-Keeps job.id _ db
    judge_compiled-Keeps work_dir Outcome.panic db = refl
    judge_compiled-Keeps work_dir Outcome.out_of_fuel db = refl

    pub judge_in-Keeps : (o : Outcome FilePath) → Keeps id (judge_in json host job o)
    unfolding judge_in
    judge_in-Keeps (Outcome.ok work_dir) db = judge_compiled-Keeps work_dir _ db
    judge_in-Keeps (Outcome.err e) db = set_status-Keeps job.id _ db
    judge_in-Keeps Outcome.panic db = refl
    judge_in-Keeps Outcome.out_of_fuel db = refl
