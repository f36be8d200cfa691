-- ===== src/Api/Submit.antt =====
-- The three handlers of src/api/handlers.rs that take a submission: `contest_problem_submit`,
-- `problems_submit` and `api_submit`. Each is cut where the code returns early: a guard answers or
-- goes on to the next function.
pub mod Accepted
pub mod InContest
pub mod Direct
pub mod Stores
pub mod Again
pub mod Judged
use mikan_judge.Prelude.{
  ◌*◌, ◌++◌, String, Option, none, some, List, [], ◌∷◌, map, format, decimal, if◌then◌else◌,
}
use mikan_judge.Prelude.Int.{ℤ, pos, ltb_ℤ, pos_part}
use mikan_judge.Prelude.Outcome.{Outcome, ok, err, panic, out_of_fuel}
use mikan_judge.Types.Language.{Language, from_db}
use mikan_judge.Types.Status.{JudgeType, exact, heuristic, pending, is_heuristic}
use mikan_judge.Types.Contest.{DateTime, Contest, ContestStatus, upcoming, status}
use mikan_judge.Types.Records.{Uuid, Submission, SubmitRequest}
use mikan_judge.Sandbox.{FilePath}
use mikan_judge.Problem.{FileSystem, Problem, Testcase, load_one}
use mikan_judge.Db.Contest.{get_by_id}
use mikan_judge.Db.Submission.{insert}
use mikan_judge.Worker.{JudgeJob}
use mikan_judge.Api.{
  Response, redirect, too_large, failure, status_code, created, World, Handler, resolve, with_db,
  source_code_too_large,
}
use mikan_judge.Api.Sessions.{current_user_id, check_submit_cooldown, record_submit_time}

-- What one request meets: the problems' folder, the fresh id of `Uuid::new_v4`, what the clock says
-- at `status()`, at the two calls on the cooldown, and at the server's `NOW()`, and the printing of
-- a UUID.
pub record Request : Type 0 where
  pub fs : FileSystem
  pub problems_dir : FilePath
  pub id : Uuid
  pub status_at : DateTime
  pub checked_at : DateTime
  pub stored_at : DateTime
  pub recorded_at : DateTime
  pub print_uuid : Uuid → String

pub record ProblemSubmitForm : Type 0 where
  pub language : String
  pub source_code : String

abbrev pub pending_submission :
    Uuid → Option Uuid → Option String → String → Language → String → Submission
pending_submission id user_id contest_id source_code language problem_id = record {
  id = id;
  user_id = user_id;
  contest_id = contest_id;
  source_code = source_code;
  language = language;
  problem_id = problem_id;
  status = pending;
  time_used_ms = none;
  memory_used_kb = none;
  stdout = none;
  stderr = none;
  testcase_results = none;
  score = none;
}

-- `state.job_tx.send(job).await`, and the answer where the channel took the job or is closed.
unfoldable pub send : JudgeJob → (sent closed : Response) → Handler
send job sent closed w =
    if w.is_open then (sent, record w { queue = w.queue ++ job ∷ [] }) else (closed, w)

abbrev pub channel_closed : Response
channel_closed = failure "channel closed"

abbrev pub cases_of : Problem → List (String × Option String)
cases_of prob = map (λ tc. (tc.input, tc.expected)) prob.testcases

abbrev pub cooldown_key : JudgeType → String
cooldown_key heuristic = "last_heuristic_submit_at"
cooldown_key exact = "last_submit_at"

abbrev pub cooldown_ms : JudgeType → ℤ
cooldown_ms heuristic = pos (5 * 60 * 1000)
cooldown_ms exact = pos 5000

module _ (rq : Request) where
  abbrev pub contest_job : ProblemSubmitForm → JudgeType → Problem → JudgeJob
  contest_job form judge_type prob = record {
    id = rq.id;
    source_code = form.source_code;
    language = from_db form.language;
    testcases = cases_of prob;
    time_limit_ms = prob.time_limit_ms;
    memory_limit_kb = prob.memory_limit_kb;
    judge_type = judge_type;
    scorer_path = prob.scorer_path;
  }

  module _ (contest_id problem_id : String) (form : ProblemSubmitForm) where
    abbrev pub contest_submission : Uuid → Submission
    contest_submission uid =
        pending_submission rq.id (some uid) (some contest_id) form.source_code
          (from_db form.language) problem_id

    abbrev pub in_contest : String
    in_contest = format ("/contests/" ∷ contest_id ∷ [])

    -- The insert, the time of the submission, and the job.
    unfoldable pub contest_store : Uuid → JudgeType → Problem → Handler
    unfolding send
    contest_store uid judge_type prob =
        with_db failure (insert rq.stored_at (contest_submission uid)) λ _ w.
          send (contest_job form judge_type prob)
            (redirect (format (in_contest ∷ "/submissions/" ∷ rq.print_uuid rq.id ∷ [])))
            channel_closed
            (record w {
              session = record_submit_time (cooldown_key judge_type) rq.recorded_at w.session;
            })

    unfoldable pub contest_load : Uuid → JudgeType → Outcome Problem → Handler
    unfolding contest_store
    contest_load uid judge_type (ok prob) w =
        if source_code_too_large form.source_code
        then (too_large, w)
        else contest_store uid judge_type prob w
    contest_load uid judge_type (err e) w =
        (failure (format ("problem '" ∷ problem_id ∷ "' not found" ∷ [])), w)
    contest_load uid judge_type panic w = (Response.aborted, w)
    contest_load uid judge_type out_of_fuel w = (Response.aborted, w)

    abbrev pub remaining : JudgeType → World → ℤ
    remaining judge_type w =
        check_submit_cooldown w.session (cooldown_key judge_type) (cooldown_ms judge_type)
          rq.checked_at

    unfoldable pub contest_cooldown : Uuid → JudgeType → Handler
    unfolding contest_load
    contest_cooldown uid judge_type w =
        if ltb_ℤ (pos 0) (remaining judge_type w)
        then (
          redirect (
              format (
                in_contest
                ∷ "/problems/"
                ∷ problem_id
                ∷ "?cooldown_remaining_ms="
                ∷ decimal (pos_part (remaining judge_type w))
                ∷ [])),
          w,
        )
        else contest_load uid judge_type (load_one rq.fs rq.problems_dir problem_id) w

    unfoldable pub contest_size : Uuid → JudgeType → Handler
    unfolding contest_cooldown
    contest_size uid judge_type w =
        if source_code_too_large form.source_code
        then (too_large, w)
        else contest_cooldown uid judge_type w

    unfoldable pub contest_open : Uuid → JudgeType → ContestStatus → Handler
    unfolding contest_size
    contest_open uid judge_type upcoming w = (redirect in_contest, w)
    contest_open uid judge_type _ w = contest_size uid judge_type w

    unfoldable pub contest_found : Uuid → Option Contest → Handler
    unfolding contest_open
    contest_found uid none w = (failure "contest not found", w)
    contest_found uid (some contest) w =
        contest_open uid contest.judge_type (status contest rq.status_at) w

    unfoldable pub contest_user : Option Uuid → Handler
    unfolding contest_found
    contest_user none w = (redirect "/login", w)
    contest_user (some uid) w = with_db failure (get_by_id contest_id) (contest_found uid) w

    unfoldable pub contest_problem_submit : Handler
    unfolding contest_user
    contest_problem_submit w = contest_user (current_user_id w.session) w

  -- `problems_submit`: the submission belongs to no contest.
  module _ (problem_id : String) (form : ProblemSubmitForm) where
    abbrev pub problem_job : Problem → JudgeJob
    problem_job prob = record {
      id = rq.id;
      source_code = form.source_code;
      language = from_db form.language;
      testcases = cases_of prob;
      time_limit_ms = prob.time_limit_ms;
      memory_limit_kb = prob.memory_limit_kb;
      judge_type = exact;
      scorer_path = none;
    }

    abbrev pub problem_submission : Uuid → Submission
    problem_submission uid =
        pending_submission rq.id (some uid) none form.source_code (from_db form.language) problem_id

    unfoldable pub problem_loaded : Uuid → Outcome Problem → Handler
    unfolding send
    problem_loaded uid (ok prob) w =
        with_db failure (insert rq.stored_at (problem_submission uid))
          (λ _.
            send (problem_job prob) (redirect (format ("/submissions/" ∷ rq.print_uuid rq.id ∷ [])))
              channel_closed)
          w
    problem_loaded uid (err e) w =
        (failure (format ("problem '" ∷ problem_id ∷ "' not found" ∷ [])), w)
    problem_loaded uid panic w = (Response.aborted, w)
    problem_loaded uid out_of_fuel w = (Response.aborted, w)

    unfoldable pub problem_user : Option Uuid → Handler
    unfolding problem_loaded
    problem_user none w = (redirect "/login", w)
    problem_user (some uid) w = problem_loaded uid (load_one rq.fs rq.problems_dir problem_id) w

    unfoldable pub problems_submit : Handler
    unfolding problem_user
    problems_submit w = problem_user (current_user_id w.session) w

  -- `api_submit`: the request carries its one case and its limits.
  module _ (req : SubmitRequest) where
    abbrev pub api_job : JudgeJob
    api_job = record {
      id = rq.id;
      source_code = req.source_code;
      language = req.language;
      testcases = (req.stdin, some req.expected_output) ∷ [];
      time_limit_ms = req.time_limit_ms;
      memory_limit_kb = req.memory_limit_kb;
      judge_type = exact;
      scorer_path = none;
    }

    abbrev pub api_submission : Submission
    api_submission = pending_submission rq.id none none req.source_code req.language req.problem_id

    unfoldable pub api_submit : Handler
    unfolding send
    api_submit w =
        if source_code_too_large req.source_code
        then (too_large, w)
        else with_db (λ e. status_code 500) (insert rq.stored_at api_submission)
            (λ _. send api_job (created rq.id) (status_code 503)) w
