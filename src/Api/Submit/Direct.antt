-- ===== src/Api/Submit/Direct.antt =====
-- The guards of `problems_submit` and `api_submit` of src/api/handlers.rs, and what passes them.
use mikan_judge.Prelude.{
  ◌≡◌, refl, ◌∙◌, ◌⊎◌, inl, inr, String, false, Option, none, some, Bool-cases,
}
use mikan_judge.Prelude.Outcome.{Outcome, ok, err, panic, out_of_fuel}
use mikan_judge.Types.Records.{Uuid, SubmitRequest}
use mikan_judge.Problem.{Problem, load_one}
use mikan_judge.Api.{World, source_code_too_large, failure, status_code}
use mikan_judge.Api.Sessions.{current_user_id}
use mikan_judge.Api.Submit.{
  Request, ProblemSubmitForm, problem_submission, problem_job, problem_loaded, problem_user,
  problems_submit, api_submission, api_job, api_submit,
}
use mikan_judge.Api.Submit.Accepted.{
  Quiet, Quiet-refl, Stored, with_db-Stored, send-queue, queue_sent,
}

module _ (rq : Request) (problem_id : String) (form : ProblemSubmitForm) where
  pub record Accepted (w w' : World) : Type 0 where
    pub uid : Uuid
    pub prob : Problem
    pub user : current_user_id w.session ≡ some uid
    pub loaded : load_one rq.fs rq.problems_dir problem_id ≡ ok prob
    pub stored :
        Stored rq.stored_at
          (problem_submission rq problem_id form uid)
          (problem_job rq problem_id form prob)
          w.session
          w
          w'

  abbrev pub Ends : World → World → Type 0
  Ends w w' = Quiet w w' ⊎ Accepted w w'

  module _ (w : World) (uid : Uuid) (user : current_user_id w.session ≡ some uid) where
    loaded-Ends :
        (o : Outcome Problem)
        → load_one rq.fs rq.problems_dir problem_id ≡ o
        → Ends w (problem_loaded rq problem_id form uid o w).1
    unfolding problem_loaded
    loaded-Ends (ok prob) e =
        elim (with_db-Stored rq.stored_at (problem_submission rq problem_id form uid)
          (problem_job rq problem_id form prob) w.session failure _ w
          (λ w' o q s.
            let (kept, queued, timed) = send-queue (problem_job rq problem_id form prob) _ _ w' in
            (
              kept,
              queued ∙ queue_sent (problem_job rq problem_id form prob) w w' o q,
              timed ∙ s,
            ))) [
              | inl quiet ↦ inl quiet
              | inr stored ↦
                  inr (record { uid = uid; prob = prob; user = user; loaded = e; stored = stored })
            ]
    loaded-Ends (err m) e = inl (Quiet-refl w)
    loaded-Ends panic e = inl (Quiet-refl w)
    loaded-Ends out_of_fuel e = inl (Quiet-refl w)

  user-Ends :
      (w : World) (user : Option Uuid)
      → current_user_id w.session ≡ user
      → Ends w (problem_user rq problem_id form user w).1
  unfolding problem_user
  user-Ends w none e = inl (Quiet-refl w)
  user-Ends w (some uid) e = loaded-Ends w uid e (load_one rq.fs rq.problems_dir problem_id) refl

  -- A submission outside every contest either leaves the table, the queue and the session as they
  -- were, or its user is logged in, its problem can be read, and it is stored with its job.
  pub problems_submit-Ends : (w : World) → Ends w (problems_submit rq problem_id form w).1
  unfolding problems_submit
  problems_submit-Ends w = user-Ends w (current_user_id w.session) refl

-- A request to the JSON API either leaves the table, the queue and the session as they were, or its
-- source is at most 512 KiB long and it is stored with its job.
pub api_submit-Stored :
    (rq : Request) (req : SubmitRequest) (w : World)
    → Quiet w (api_submit rq req w).1
      ⊎ ((source_code_too_large req.source_code ≡ false)
          × Stored rq.stored_at
              (api_submission rq req)
              (api_job rq req)
              w.session
              w
              (api_submit rq req w).1)
unfolding api_submit
api_submit-Stored rq req w = elim (Bool-cases (source_code_too_large req.source_code)) [
  | inl large ↦ rw large (inl (Quiet-refl w))
  | inr small ↦
      rw small
        (elim (with_db-Stored rq.stored_at (api_submission rq req) (api_job rq req) w.session
          (λ e. status_code 500) _ w
          (λ w' o q s.
            let (kept, queued, timed) = send-queue (api_job rq req) _ _ w' in
            (kept, queued ∙ queue_sent (api_job rq req) w w' o q, timed ∙ s))) [
              | inl quiet ↦ inl quiet
              | inr stored ↦ inr (refl, stored)
            ])
]
