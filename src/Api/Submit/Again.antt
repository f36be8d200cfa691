-- ===== src/Api/Submit/Again.antt =====
-- Two submissions of one session to a contest (`contest_problem_submit`, `record_submit_time` and
-- `check_submit_cooldown` of src/api/handlers.rs).
use mikan_judge.Prelude.{
  ℕ, ◌+◌, ◌/◌, ◌<◌, ◌≡◌, refl, String, true, none, some, arith, Bool-cases, inl, inr, sym,
}
use mathlib.Core.Path.{subst}
use mikan_judge.Prelude.Int.{pos, ltb_ℤ}
use mikan_judge.Types.Status.{JudgeType, exact, heuristic}
use mikan_judge.Types.Contest.{Contest, ContestStatus, upcoming, ongoing, past, status}
use mikan_judge.Types.Records.{Uuid}
use mikan_judge.Problem.{Problem}
use mikan_judge.Db.Outages.{query-answers}
use mikan_judge.Db.Contest.{get_by_id, get_query}
use mikan_judge.Api.{World, source_code_too_large}
use mikan_judge.Api.Sessions.{
  Session, current_user_id, check_submit_cooldown, record_submit_time, lookup, insert,
}
use mikan_judge.Api.Sessions.Cooldown.{check_submit_cooldown_iff}
use mikan_judge.Api.Submit.{
  Request, ProblemSubmitForm, contest_cooldown, contest_size, contest_open, contest_found,
  contest_user, contest_problem_submit, cooldown_key, cooldown_ms, remaining,
}
use mikan_judge.Api.Submit.Stores.{Passes, stored_and_sent, contest_problem_submit-eq}

-- The time in milliseconds between two submissions.
abbrev pub wait : JudgeType → ℕ
wait exact = 5000
wait heuristic = 300_000

-- Recording a submission leaves the user of the session.
record_submit_time-user :
    (j : JudgeType) (now : ℕ) (session : Session)
    → current_user_id (record_submit_time (cooldown_key j) now session) ≡ current_user_id session
unfolding record_submit_time insert lookup
record_submit_time-user exact now none = refl
record_submit_time-user exact now (some es) = refl
record_submit_time-user heuristic now none = refl
record_submit_time-user heuristic now (some es) = refl

module _ (rq : Request) (contest_id problem_id : String) (form : ProblemSubmitForm)
    (w : World) where
  -- Inside the cooldown a guard stops the request.
  refused :
      (uid : Uuid) (j : JudgeType) (s : ContestStatus)
      → ltb_ℤ (pos 0) (remaining rq contest_id problem_id form j w) ≡ true
      → (contest_open rq contest_id problem_id form uid j s w).1 ≡ w
  unfolding contest_open contest_size contest_cooldown
  refused uid j upcoming h = refl
  refused uid j ongoing h = elim (Bool-cases (source_code_too_large form.source_code)) [
    | inl large ↦ rw large refl
    | inr small ↦ rw (small, h) refl
  ]
  refused uid j past h = elim (Bool-cases (source_code_too_large form.source_code)) [
    | inl large ↦ rw large refl
    | inr small ↦ rw (small, h) refl
  ]

-- A session that can be read and has recorded a submission is in its cooldown.
cooling :
    (j : JudgeType) (earlier now : ℕ) (session : Session) (uid : Uuid)
    → current_user_id session ≡ some uid
    → now / 1_000_000 < earlier / 1_000_000 + wait j
    → ltb_ℤ (pos 0) (
        check_submit_cooldown
          (record_submit_time (cooldown_key j) earlier session)
          (cooldown_key j)
          (pos (wait j))
          now)
      ≡ true
cooling j earlier now none uid e soon = cc
cooling j earlier now (some es) uid e soon =
    let passes = check_submit_cooldown_iff es (cooldown_key j) earlier now (wait j) in
    elim (Bool-cases (
      ltb_ℤ (pos 0) (
        check_submit_cooldown (record_submit_time (cooldown_key j) earlier (some es))
          (cooldown_key j) (pos (wait j)) now))) [
            | inl cool ↦ cool
            | inr over ↦ absurd (omega (arith, passes.0 over, soon))
          ]

cooldown_ms-eq : (j : JudgeType) → cooldown_ms j ≡ pos (wait j)
cooldown_ms-eq exact = refl
cooldown_ms-eq heuristic = refl

module _ (rq : Request) (contest_id problem_id : String) (form : ProblemSubmitForm) (w : World)
    (uid : Uuid) (contest : Contest) (prob : Problem)
    (p : Passes rq contest_id problem_id form w uid contest prob) where
  -- The state behind the first submission.
  abbrev pub behind : World
  behind = (contest_problem_submit rq contest_id problem_id form w).1

  stored : World
  stored = (stored_and_sent rq contest_id problem_id form w uid contest prob).1

  module _ (later : Request) (other : String) (again : ProblemSubmitForm)
      (soon : later.checked_at / 1_000_000
        < rq.recorded_at / 1_000_000 + wait contest.judge_type) where
    found_refused :
        (contest_found later contest_id other again uid (some contest) stored).1 ≡ stored
    unfolding contest_found stored
    found_refused =
        refused later contest_id other again stored uid contest.judge_type
          (status contest later.status_at)
          (rw (cooldown_ms-eq contest.judge_type)
            (cooling contest.judge_type rq.recorded_at later.checked_at w.session uid p.user soon))

    stored_refused : (contest_problem_submit later contest_id other again stored).1 ≡ stored
    unfolding contest_problem_submit contest_user get_by_id stored
    stored_refused =
        rw
          (
            record_submit_time-user contest.judge_type rq.recorded_at w.session,
            p.user,
            query-answers (get_query contest_id) stored.db p.answers,
            p.found,
          )
          found_refused

    -- Behind a submission to a contest that every guard has let through, another request of the same
    -- session to the same contest, whatever its problem and its source, changes nothing as long as
    -- 5 s, in a heuristic contest 5 min, have not gone by, in whole milliseconds, since the time that
    -- the first one recorded: nothing is stored, nothing is sent and no time is recorded.
    pub contest_problem_submit_again :
        (contest_problem_submit later contest_id other again behind).1 ≡ behind
    unfolding stored
    contest_problem_submit_again =
        subst (λ a. (contest_problem_submit later contest_id other again a.1).1 ≡ a.1)
          (sym (contest_problem_submit-eq rq contest_id problem_id form w uid contest prob p))
          stored_refused
