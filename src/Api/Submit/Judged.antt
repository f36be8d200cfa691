-- ===== src/Api/Submit/Judged.antt =====
-- A submission from the form to the result: `contest_problem_submit` and `api_get_result` of
-- src/api/handlers.rs around `judge` of src/worker/mod.rs.
use mathlib.Core.Option
use mikan_judge.Prelude.{
  ◌≡◌, ◌↔◌, refl, sym, ap, ◌∙◌, inl, inr, String, true, false, none, some, List, [], ◌∷◌, ◌++◌, All,
  eqb, eqb_refl, Bool-cases, Option-cases, arith,
}
use mikan_judge.Types.Status.{exact, accepted, running, is_success}
use mikan_judge.Types.Contest.{Contest}
use mikan_judge.Types.Records.{Uuid, Submission}
use mikan_judge.Sandbox.{FilePath, CompileOutput}
use mikan_judge.Problem.{Problem}
use mikan_judge.Db.{Database, SubmissionRow}
use mikan_judge.Db.Outages.{query-answers}
use mikan_judge.Db.Submission.{
  Json, find_row, inserted_row, into_submission, with_results, with_status, violates, get_query,
  get_by_id,
}
use mikan_judge.Worker.{JudgeJob, Host, CaseOutcome}
use mikan_judge.Worker.Judge.{initial_status, judge, set_status}
use mikan_judge.Worker.Judge.Loop.{first_failure, status_or}
use mikan_judge.Worker.Judge.Writes.{row, set_status-row, update_result-nil}
use mikan_judge.Worker.Judge.Result.{
  Runs, results_of, judge-eq, judge-row, read_accepted_iff, accepted_or_iff,
}
use mikan_judge.Api.{World, result}
use mikan_judge.Api.Views.{Viewing, api_get_result}
use mikan_judge.Api.Submit.{
  Request, ProblemSubmitForm, contest_submission, contest_job, contest_problem_submit,
}
use mikan_judge.Api.Submit.Stores.{Passes, stored_and_sent, contest_problem_submit-eq}

find_row-append :
    (id : Uuid) (rows : List SubmissionRow) (r : SubmissionRow)
    → find_row id rows ≡ none
    → eqb r.id id ≡ true
    → find_row id (rows ++ r ∷ []) ≡ some r
find_row-append id [] r fresh own = rw own refl
find_row-append id (s ∷ rows) r fresh own = elim (Bool-cases (eqb s.id id)) [
  | inl taken ↦ absurd (ground (arith, fresh, taken))
  | inr other ↦
      let later : find_row id (s ∷ rows) ≡ find_row id rows = rw other refl in
      rw other (find_row-append id rows r (sym later ∙ fresh) own)
]

pub fresh_id :
    (db : Database) (sub : Submission)
    → violates db sub ≡ false
    → find_row sub.id db.submissions ≡ none
unfolding violates
fresh_id db sub fits = elim (Option-cases (find_row sub.id db.submissions)) [
  | inl fresh ↦ fresh
  | inr (r, taken) ↦
      let broken : violates db sub ≡ true = rw taken refl in absurd (ground (arith, fits, broken))
]

module _ (json : Json) (host : Host) (job : JudgeJob) (work_dir : FilePath) (c : CompileOutput)
    (cs : List CaseOutcome) (runs : Runs host job work_dir c json cs) where
  judge-answers : (db : Database) → db.outages ≡ [] → (judge json host job db).1.outages ≡ []
  judge-answers db out =
      let (out', _) = set_status-row json job.id running db out in
      rw
        (
          judge-eq json host job work_dir c cs runs db,
          update_result-nil json job.id (results_of host job.judge_type cs)
              (set_status job.id running db) out',
        )
        out'

-- Where the server answers, the result of a stored submission is what its row says.
api_get_result-row :
    (v : Viewing) (id : Uuid) (w : World) (r : SubmissionRow)
    → w.db.outages ≡ []
    → row id w.db ≡ some r
    → (api_get_result v id w).0 ≡ result (into_submission v.json r)
unfolding api_get_result get_by_id
api_get_result-row v id w r answers stored =
    rw (query-answers (get_query v.json id) w.db answers, stored) refl

module _ (rq : Request) (contest_id problem_id : String) (form : ProblemSubmitForm) (w : World)
    (uid : Uuid) (contest : Contest) (prob : Problem)
    (p : Passes rq contest_id problem_id form w uid contest prob) (v : Viewing) (host : Host)
    (work_dir : FilePath) (c : CompileOutput) (cs : List CaseOutcome)
    (runs : Runs host (contest_job rq form contest.judge_type prob) work_dir c v.json cs) where
  -- The state once a worker has judged the job, right behind the submission.
  abbrev pub judged_world : World
  judged_world =
      let w' = (contest_problem_submit rq contest_id problem_id form w).1 in
      record w' { db = (judge v.json host (contest_job rq form contest.judge_type prob) w'.db).1 }

  stored_row : SubmissionRow
  stored_row = inserted_row rq.stored_at (contest_submission rq contest_id problem_id form uid)

  kept_row : SubmissionRow
  kept_row =
      with_results v.json (results_of host contest.judge_type cs) (with_status running stored_row)

  kept : (row rq.id judged_world.db ≡ some kept_row) × (judged_world.db.outages ≡ [])
  unfolding stored_row kept_row
  kept =
      let sub = contest_submission rq contest_id problem_id form uid in
      let job = contest_job rq form contest.judge_type prob in
      let world = (stored_and_sent rq contest_id problem_id form w uid contest prob).1 in
      let stored =
        find_row-append rq.id w.db.submissions stored_row (fresh_id w.db sub p.fits)
          (eqb_refl rq.id) in
      rw (contest_problem_submit-eq rq contest_id problem_id form w uid contest prob p) (
        judge-row v.json host job work_dir c cs runs world.db p.answers ∙ ap (Option.map _) stored,
        judge-answers v.json host job work_dir c cs runs world.db p.answers,
      )

  -- A submission to an exact contest that passes every guard, with a server that answers, and whose
  -- job a worker then judges, all cases being run, is what the result API gives under its id: with its
  -- user, contest, problem and source, and accepted exactly when every case of the problem passed.
  pub api_get_result-judged :
      contest.judge_type ≡ exact
      → (sub : Submission) × ((api_get_result v rq.id judged_world).0 ≡ result sub)
        × (sub.user_id ≡ some uid)
        × (sub.contest_id ≡ some contest_id)
        × (sub.problem_id ≡ problem_id)
        × (sub.source_code ≡ form.source_code)
        × ((sub.status ≡ accepted) ↔ All (λ c. is_success c.status ≡ true) cs)
  unfolding into_submission with_results with_status kept_row stored_row
  api_get_result-judged exactly =
      let s = status_or (initial_status contest.judge_type) (first_failure cs) in
      let read = read_accepted_iff s in
      let all : (s ≡ accepted) ↔ All (λ c. is_success c.status ≡ true) cs =
        rw exactly (accepted_or_iff cs) in
      (
        into_submission v.json kept_row,
        api_get_result-row v rq.id judged_world kept_row kept.1 kept.0,
        refl,
        refl,
        refl,
        refl,
        (λ e. all.0 (read.0 e), λ h. read.1 (all.1 h)),
      )
