-- ===== src/Api/Views/Polls.antt =====
-- The poll of a submission in a contest (`contest_submission_poll` of src/api/handlers.rs).
use mikan_judge.Prelude.{
  ◌≡◌, ◌≢◌, ◌↔◌, refl, String, Option, some, [], ◌∷◌, format, arith, Bool-cases, inl, inr,
}
use mikan_judge.Types.Status.{
  JudgeStatus, pending, running, accepted, wrong_answer, time_limit_exceeded, memory_limit_exceeded,
  runtime_error, compile_error, internal_error, scored, status_from_db,
}
use mikan_judge.Types.Records.{Uuid}
use mikan_judge.Db.{SubmissionRow}
use mikan_judge.Db.Outages.{query-answers}
use mikan_judge.Db.Submission.{into_submission, find_row, get_query, get_by_id}
use mikan_judge.Api.{World, verdict_info, poll}
use mikan_judge.Api.Views.{Viewing, moved, poll_answer, polled, contest_submission_poll}

module _ (v : Viewing) (id : Uuid) (w : World) (r : SubmissionRow) (answers : w.db.outages ≡ [])
    (stored : find_row id w.db.submissions ≡ some r) where
  stays :
      (contest_id : Option String) (location : String) (sub : Uuid) (verdict badge : String)
      → poll contest_id sub verdict badge ≢ moved v location
  stays contest_id location sub verdict badge e = elim (Bool-cases (v.is_header_value location)) [
    | inl accepts ↦ absurd (ground (arith, e, accepts))
    | inr refuses ↦ absurd (ground (arith, e, refuses))
  ]

  answer_iff :
      (contest_id : Option String) (location : String) (sub : Uuid) (s : JudgeStatus)
      → (poll_answer v contest_id location sub (verdict_info s) ≡ moved v location)
        ↔ ((s ≢ pending) × (s ≢ running))
  unfolding verdict_info
  answer_iff contest_id location sub pending =
      (λ e. absurd (stays contest_id location sub _ _ e), λ h. absurd (h.0 refl))
  answer_iff contest_id location sub running =
      (λ e. absurd (stays contest_id location sub _ _ e), λ h. absurd (h.1 refl))
  answer_iff contest_id location sub accepted = ((λ _. (λ u. cc, λ u. cc)), λ _. refl)
  answer_iff contest_id location sub wrong_answer = ((λ _. (λ u. cc, λ u. cc)), λ _. refl)
  answer_iff contest_id location sub time_limit_exceeded = ((λ _. (λ u. cc, λ u. cc)), λ _. refl)
  answer_iff contest_id location sub memory_limit_exceeded = ((λ _. (λ u. cc, λ u. cc)), λ _. refl)
  answer_iff contest_id location sub (runtime_error c) = ((λ _. (λ u. cc, λ u. cc)), λ _. refl)
  answer_iff contest_id location sub (compile_error m) = ((λ _. (λ u. cc, λ u. cc)), λ _. refl)
  answer_iff contest_id location sub (internal_error m) = ((λ _. (λ u. cc, λ u. cc)), λ _. refl)
  answer_iff contest_id location sub scored = ((λ _. (λ u. cc, λ u. cc)), λ _. refl)

  -- Where the server answers, a poll of a stored submission in a contest sends the browser on to
  -- the submission's page exactly when the submission is neither pending nor running.
  pub contest_submission_poll_iff :
      (contest_id : String)
      → ((contest_submission_poll v contest_id id w).0
          ≡ moved v (format ("/contests/" ∷ contest_id ∷ "/submissions/" ∷ v.print_uuid id ∷ [])))
        ↔ ((status_from_db r.status ≢ pending) × (status_from_db r.status ≢ running))
  unfolding contest_submission_poll polled get_by_id into_submission
  contest_submission_poll_iff contest_id =
      rw (query-answers (get_query v.json id) w.db answers, stored)
        (answer_iff (some contest_id)
          (format ("/contests/" ∷ contest_id ∷ "/submissions/" ∷ v.print_uuid id ∷ [])) r.id
          (status_from_db r.status))
