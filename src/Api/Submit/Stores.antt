-- ===== src/Api/Submit/Stores.antt =====
-- What `contest_problem_submit` of src/api/handlers.rs does once every guard is passed and the
-- server answers.
use mikan_judge.Prelude.{format, ◌≡◌, ◌≢◌, refl, String, true, false, some, [], ◌∷◌, ◌++◌}
use mikan_judge.Prelude.Outcome.{ok}
use mikan_judge.Types.Contest.{Contest, ContestStatus, upcoming, ongoing, past, status}
use mikan_judge.Types.Records.{Uuid}
use mikan_judge.Problem.{Problem, load_one}
use mikan_judge.Db.Outages.{query-answers}
use mikan_judge.Db.Contest.{get_by_id, get_query}
use mikan_judge.Db.Submission.{insert, insert_query, inserted_row, violates}
use mikan_judge.Api.{Response, redirect, World, source_code_too_large}
use mikan_judge.Api.Sessions.{current_user_id, record_submit_time}
use mikan_judge.Api.Submit.{
  Request, ProblemSubmitForm, contest_submission, contest_job, contest_store, contest_load,
  contest_cooldown, contest_size, contest_open, contest_found, contest_user, contest_problem_submit,
  cooldown_key, send,
}
use mikan_judge.Api.Submit.InContest.{contest_in, Cooled}

module _ (rq : Request) (contest_id problem_id : String) (form : ProblemSubmitForm)
    (w : World) where
  -- A request that every guard lets through, with a server that answers and takes the row.
  pub record Passes (uid : Uuid) (contest : Contest) (prob : Problem) : Type 0 where
    pub user : current_user_id w.session ≡ some uid
    pub found : contest_in contest_id w.db ≡ some contest
    pub begun : status contest rq.status_at ≢ upcoming
    pub small : source_code_too_large form.source_code ≡ false
    pub cooled : Cooled rq contest_id problem_id form contest.judge_type w
    pub loaded : load_one rq.fs rq.problems_dir problem_id ≡ ok prob
    pub answers : w.db.outages ≡ []
    pub fits : violates w.db (contest_submission rq contest_id problem_id form uid) ≡ false
    pub receives : w.is_open ≡ true

  module _ (uid : Uuid) (contest : Contest) (prob : Problem) where
    -- The answer and the state behind a submission that is stored and sent.
    abbrev pub stored_and_sent : Response × World
    stored_and_sent = (
      redirect (
          format
            (format ("/contests/" ∷ contest_id ∷ []) ∷ "/submissions/" ∷ rq.print_uuid rq.id ∷ [])),
      record {
        db = record w.db {
          submissions =
              w.db.submissions
              ++ inserted_row rq.stored_at (contest_submission rq contest_id problem_id form uid)
                ∷ [];
        };
        session = record_submit_time (cooldown_key contest.judge_type) rq.recorded_at w.session;
        queue = w.queue ++ contest_job rq form contest.judge_type prob ∷ [];
        is_open = w.is_open;
      },
    )

    module _ (p : Passes uid contest prob) where
      store-eq :
          contest_store rq contest_id problem_id form uid contest.judge_type prob w
          ≡ stored_and_sent
      unfolding contest_store send insert
      store-eq =
          rw
            (
              query-answers
                  (insert_query rq.stored_at (contest_submission rq contest_id problem_id form uid))
                  w.db p.answers,
              p.fits,
              p.receives,
            )
            refl

      size-eq :
          contest_size rq contest_id problem_id form uid contest.judge_type w ≡ stored_and_sent
      unfolding contest_size contest_cooldown contest_load
      size-eq = rw (p.small, p.cooled, p.loaded, p.small) store-eq

      open-eq :
          (s : ContestStatus)
          → s ≢ upcoming
          → contest_open rq contest_id problem_id form uid contest.judge_type s w ≡ stored_and_sent
      unfolding contest_open
      open-eq upcoming h = absurd (h refl)
      open-eq ongoing h = size-eq
      open-eq past h = size-eq

      -- A logged-in user's submission of at most 512 KiB to a contest that has begun, behind the
      -- cooldown, of a problem that can be read, is stored as pending, its time is recorded, its
      -- job goes to the end of the queue, and the user is sent to its page, if the server answers
      -- and takes the row and a worker receives.
      pub contest_problem_submit-eq :
          contest_problem_submit rq contest_id problem_id form w ≡ stored_and_sent
      unfolding contest_problem_submit contest_user contest_found get_by_id
      contest_problem_submit-eq =
          rw (p.user, query-answers (get_query contest_id) w.db p.answers, p.found)
            (open-eq (status contest rq.status_at) p.begun)
