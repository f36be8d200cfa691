-- ===== src/Api/Submit/InContest.antt =====
-- The guards of `contest_problem_submit` of src/api/handlers.rs, and what passes them.
use mathlib.Core.Option
use mikan_judge.Prelude.{
  ◌≡◌, ◌≢◌, refl, ap, ◌∙◌, ◌⊎◌, inl, inr, String, true, false, Option, none, some, List, Bool-cases,
  find, ◌==◌,
}
use mikan_judge.Prelude.Int.{pos, ltb_ℤ}
use mikan_judge.Prelude.Outcome.{Outcome, ok, err, panic, out_of_fuel}
use mikan_judge.Types.Status.{JudgeType}
use mikan_judge.Types.Contest.{Contest, ContestStatus, upcoming, ongoing, past, status}
use mikan_judge.Types.Records.{Uuid}
use mikan_judge.Problem.{Problem, load_one}
use mikan_judge.Db.{Database}
use mikan_judge.Db.Outages.{with_outages, query-Queried}
use mikan_judge.Db.Contest.{into_contest, get_query, get_by_id}
use mikan_judge.Db.Submission.{violates}
use mikan_judge.Api.{World, source_code_too_large, failure}
use mikan_judge.Api.Sessions.{current_user_id, record_submit_time}
use mikan_judge.Api.Submit.{
  Request, ProblemSubmitForm, contest_submission, contest_job, contest_store, contest_load,
  contest_cooldown, contest_size, contest_open, contest_found, contest_user, contest_problem_submit,
  remaining, cooldown_key,
}
use mikan_judge.Api.Submit.Accepted.{
  Quiet, Quiet-refl, Stored, with_db-Stored, send-queue, queue_sent,
}

abbrev pub contest_in : String → Database → Option Contest
contest_in id db = Option.map into_contest (find (λ r. r.id == id) db.contests)

module _ (rq : Request) (contest_id problem_id : String) (form : ProblemSubmitForm) where
  abbrev pub Cooled : JudgeType → World → Type 0
  Cooled t w = ltb_ℤ (pos 0) (remaining rq contest_id problem_id form t w) ≡ false

  -- A user who is logged in submits a source of the right size to a contest that has begun, the
  -- cooldown is over, the problem can be read, and the submission is stored with its job.
  pub record Accepted (w w' : World) : Type 0 where
    pub uid : Uuid
    pub contest : Contest
    pub prob : Problem
    pub user : current_user_id w.session ≡ some uid
    pub found : contest_in contest_id w.db ≡ some contest
    pub begun : status contest rq.status_at ≢ upcoming
    pub small : source_code_too_large form.source_code ≡ false
    pub cooled : Cooled contest.judge_type w
    pub loaded : load_one rq.fs rq.problems_dir problem_id ≡ ok prob
    pub stored :
        Stored rq.stored_at
          (contest_submission rq contest_id problem_id form uid)
          (contest_job rq form contest.judge_type prob)
          (record_submit_time (cooldown_key contest.judge_type) rq.recorded_at w.session)
          w
          w'

  abbrev pub Ends : World → World → Type 0
  Ends w w' = Quiet w w' ⊎ Accepted w w'

  module _ (w : World) (uid : Uuid) (contest : Contest)
      (user : current_user_id w.session ≡ some uid)
      (found : contest_in contest_id w.db ≡ some contest)
      (begun : status contest rq.status_at ≢ upcoming)
      (small : source_code_too_large form.source_code ≡ false) where
    module _ (cooled : Cooled contest.judge_type w) where
      store-Ends :
          (prob : Problem)
          → load_one rq.fs rq.problems_dir problem_id ≡ ok prob
          → Ends w (contest_store rq contest_id problem_id form uid contest.judge_type prob w).1
      unfolding contest_store
      store-Ends prob loaded =
          elim (with_db-Stored rq.stored_at _ (contest_job rq form contest.judge_type prob)
            (record_submit_time (cooldown_key contest.judge_type) rq.recorded_at w.session) failure
            _ w
            (λ w' o q s.
              let (kept, queued, timed) =
                send-queue (contest_job rq form contest.judge_type prob) _ _ (record w' {
                  session =
                      record_submit_time (cooldown_key contest.judge_type) rq.recorded_at
                        w'.session;
                }) in
              (
                kept,
                queued ∙ queue_sent (contest_job rq form contest.judge_type prob) w w' o q,
                timed ∙ ap (record_submit_time (cooldown_key contest.judge_type) rq.recorded_at) s,
              ))) [
                | inl quiet ↦ inl quiet
                | inr stored ↦ inr (record {
                  uid = uid;
                  contest = contest;
                  prob = prob;
                  user = user;
                  found = found;
                  begun = begun;
                  small = small;
                  cooled = cooled;
                  loaded = loaded;
                  stored = stored;
                })
              ]

      load-Ends :
          (o : Outcome Problem)
          → load_one rq.fs rq.problems_dir problem_id ≡ o
          → Ends w (contest_load rq contest_id problem_id form uid contest.judge_type o w).1
      unfolding contest_load
      load-Ends (ok prob) e = rw small (store-Ends prob e)
      load-Ends (err m) e = inl (Quiet-refl w)
      load-Ends panic e = inl (Quiet-refl w)
      load-Ends out_of_fuel e = inl (Quiet-refl w)

    size-Ends : Ends w (contest_size rq contest_id problem_id form uid contest.judge_type w).1
    unfolding contest_size contest_cooldown
    size-Ends =
        rw small
          (elim (Bool-cases
            (ltb_ℤ (pos 0) (remaining rq contest_id problem_id form contest.judge_type w))) [
              | inl hot ↦ rw hot (inl (Quiet-refl w))
              | inr cool ↦ rw cool (load-Ends cool (load_one rq.fs rq.problems_dir problem_id) refl)
            ])

  module _ (w : World) (uid : Uuid) (user : current_user_id w.session ≡ some uid) where
    abbrev FoundEnds : Option Contest → Type 0
    FoundEnds found = Ends w (contest_found rq contest_id problem_id form uid found w).1

    open-Ends :
        (contest : Contest)
        → contest_in contest_id w.db ≡ some contest
        → source_code_too_large form.source_code ≡ false
        → (s : ContestStatus) → status contest rq.status_at ≡ s
        → Ends w (contest_open rq contest_id problem_id form uid contest.judge_type s w).1
    unfolding contest_open
    open-Ends contest found small upcoming e = inl (Quiet-refl w)
    open-Ends contest found small ongoing e = size-Ends w uid contest user found (λ u. cc) small
    open-Ends contest found small past e = size-Ends w uid contest user found (λ u. cc) small

    large-Quiet :
        (contest : Contest) (s : ContestStatus)
        → source_code_too_large form.source_code ≡ true
        → Ends w (contest_open rq contest_id problem_id form uid contest.judge_type s w).1
    unfolding contest_open contest_size
    large-Quiet contest upcoming large = inl (Quiet-refl w)
    large-Quiet contest ongoing large = rw large (inl (Quiet-refl w))
    large-Quiet contest past large = rw large (inl (Quiet-refl w))

    found-Ends : (found : Option Contest) → contest_in contest_id w.db ≡ found → FoundEnds found
    unfolding contest_found
    found-Ends none e = inl (Quiet-refl w)
    found-Ends (some contest) e = elim (Bool-cases (source_code_too_large form.source_code)) [
      | inl large ↦ large-Quiet contest (status contest rq.status_at) large
      | inr small ↦ open-Ends contest e small (status contest rq.status_at) refl
    ]

  -- The schedule of outages is no part of what an ending says.
  Ends-outages :
      (w w' : World) (os : List (Option String))
      → Ends (record w { db = with_outages os w.db }) w'
      → Ends w w'
  unfolding violates
  Ends-outages w w' os (inl q) =
      inl (record { rows = q.rows; queue = q.queue; session = q.session })
  Ends-outages w w' os (inr a) = inr (record {
    uid = a.uid;
    contest = a.contest;
    prob = a.prob;
    user = a.user;
    found = a.found;
    begun = a.begun;
    small = a.small;
    cooled = a.cooled;
    loaded = a.loaded;
    stored = record {
      fits = a.stored.fits;
      rows = a.stored.rows;
      queue = a.stored.queue;
      session = a.stored.session;
    };
  })

  user-Ends :
      (w : World) (user : Option Uuid)
      → current_user_id w.session ≡ user
      → Ends w (contest_user rq contest_id problem_id form user w).1
  unfolding contest_user get_by_id
  user-Ends w none e = inl (Quiet-refl w)
  user-Ends w (some uid) e =
      let (os, answer) = query-Queried (get_query contest_id) w.db in
      elim answer [
        | inl (m, failed) ↦ rw failed (inl (record { rows = refl; queue = refl; session = refl }))
        | inr same ↦ rw same (
            Ends-outages w _ os (
              found-Ends (record w { db = with_outages os w.db }) uid e (contest_in contest_id w.db)
                refl))
      ]

  -- A submission to a contest either leaves the table, the queue and the session as they were, or it
  -- has passed every guard and is stored with its job.
  pub contest_problem_submit-Ends :
      (w : World) → Ends w (contest_problem_submit rq contest_id problem_id form w).1
  unfolding contest_problem_submit
  contest_problem_submit-Ends w = user-Ends w (current_user_id w.session) refl
