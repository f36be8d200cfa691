-- ===== src/Api/Views.antt =====
-- The handlers of src/api/handlers.rs that show one submission: its page in a contest and outside,
-- the two polls, and the result of the JSON API.
pub mod Owner
pub mod Anyone
pub mod Polls
pub mod Tests
use mathlib.Core.Option
use mikan_judge.Prelude.{
  ℕ, String, Bool, true, false, Option, none, some, List, [], ◌∷◌, ◌==◌, eqb, ◌&&◌, not, find,
  format, trim_end_matches, unwrap_or, if◌then◌else◌,
}
use mikan_judge.Prelude.Outcome.{Outcome, ok, err, panic, out_of_fuel}
use mikan_judge.Types.Language.{LanguageVersions, to_db, display_name_versioned}
use mikan_judge.Types.Status.{JudgeStatus, accepted, scored, is_heuristic}
use mikan_judge.Types.Contest.{
  DateTime, Contest, ContestProblem, ContestStatus, upcoming, ongoing, past, status,
}
use mikan_judge.Types.Records.{Uuid, F64, FloatOps, Submission, User}
use mikan_judge.Sandbox.{FilePath}
use mikan_judge.Problem.{FileSystem, Problem, success, load_one}
use mikan_judge.Db.{Db}
use mikan_judge.Db.Contest.{problems_for_contest}
use mikan_judge.Db.Contest
use mikan_judge.Db.Submission.{Json}
use mikan_judge.Db.Submission
use mikan_judge.Db.Users.{find_by_id}
use mikan_judge.Api.{
  Response, detail, poll, locked, forbidden, result, failure, status_code, no_content, aborted,
  World, Handler, resolve, with_db, verdict_info,
}
use mikan_judge.Api.Contexts.{Detail}
use mikan_judge.Api.Sessions.{current_user_id}

-- What one request meets: serde_json, the problems' folder, the versions of the languages, the
-- floats, the two readings of the clock by `status()`, `HeaderValue::from_str` as to whether it
-- accepts a text, and the printing of a UUID.
pub record Viewing : Type 0 where
  pub json : Json
  pub fs : FileSystem
  pub problems_dir : FilePath
  pub lang_versions : LanguageVersions
  pub floats : FloatOps
  pub first_reading : DateTime
  pub second_reading : DateTime
  pub is_header_value : String → Bool
  pub print_uuid : Uuid → String

unfoldable pub format_score : FloatOps → F64 → String
format_score floats value = trim_end_matches 46 (trim_end_matches 48 (floats.print value))

username_in : Outcome (Option User) → Option String
username_in (ok (some u)) = some u.username
username_in _ = none

-- `current_username`: an error reads as nobody.
unfoldable pub with_username : (Option String → Handler) → Option Uuid → Handler
unfolding username_in
with_username k none w = k none w
with_username k (some id) w =
    let (r, db') = find_by_id id w.db in k (username_in r) (record w { db = db' })

abbrev is_accepted : JudgeStatus → Bool
is_accepted accepted = true
is_accepted _ = false

abbrev is_scored : JudgeStatus → Bool
is_scored scored = true
is_scored _ = false

abbrev pub label_in : String → List ContestProblem → String
label_in problem_id cps =
    unwrap_or (Option.map (λ cp. cp.label) (find (λ cp. cp.problem_id == problem_id) cps)) ""

-- `sub.user_id.map_or(false, |uid| Some(uid) == current_user_id)`
unfoldable pub is_owner : Option Uuid → Option Uuid → Bool
is_owner none viewer = false
is_owner (some uid) none = false
is_owner (some uid) (some viewer) = eqb uid viewer

abbrev pub is_ongoing : ContestStatus → Bool
is_ongoing ongoing = true
is_ongoing _ = false

module _ (v : Viewing) where
  abbrev pub problem_in : Submission → Option Problem
  problem_in sub = success (load_one v.fs v.problems_dir sub.problem_id)

  unfoldable pub detail_of :
      Option (String × String) → String → Bool → Bool → Submission → Option String → Detail
  unfolding verdict_info format_score
  detail_of contest label scores heuristic sub viewer =
      let (verdict, badge_class, is_pending) = verdict_info sub.status in
      record {
        contest = contest;
        id = sub.id;
        problem_id = sub.problem_id;
        problem_title = unwrap_or (Option.map (λ p. p.title) (problem_in sub)) sub.problem_id;
        problem_label = label;
        language = display_name_versioned sub.language v.lang_versions;
        lang_codemirror = to_db sub.language;
        source_code = sub.source_code;
        verdict = verdict;
        badge_class = badge_class;
        is_pending = is_pending;
        time_used_ms = sub.time_used_ms;
        memory_used_kb = sub.memory_used_kb;
        stdout = sub.stdout;
        stderr = sub.stderr;
        testcase_results = sub.testcase_results;
        problem_score = Option.map (λ p. p.score) (problem_in sub);
        submission_score = if scores then Option.map (format_score v.floats) sub.score else none;
        is_accepted = is_accepted sub.status;
        is_scored = scores && is_scored sub.status;
        is_heuristic = heuristic;
        current_user = viewer;
      }

  module _ (contest_id : String) (id : Uuid) where
    abbrev pub viewer_id : World → Option Uuid
    viewer_id w = current_user_id w.session

    abbrev pub forbid : Contest → Option String → Handler
    forbid contest name w = (forbidden contest_id contest.title name, w)

    abbrev pub lock : Contest → Option String → Handler
    lock contest name w = (
      locked contest (format ("/contests/" ∷ contest_id ∷ "/submissions/" ∷ v.print_uuid id ∷ []))
          name,
      w,
    )

    abbrev pub show : Contest → Submission → List ContestProblem → Option String → Handler
    show contest sub cps name w = (
      detail (
          detail_of (some (contest_id, contest.title)) (label_in sub.problem_id cps) true
            (is_heuristic contest.judge_type) sub name),
      w,
    )

    -- The last test of the page: who may see it, by the second reading of the clock.
    unfoldable pub contest_page : Contest → Submission → List ContestProblem → Handler
    unfolding detail_of is_owner with_username
    contest_page contest sub cps w =
        if is_ongoing (status contest v.second_reading) && not (is_owner sub.user_id (viewer_id w))
        then with_username (forbid contest) (viewer_id w) w
        else with_username (show contest sub cps) (viewer_id w) w

    unfoldable pub contest_sub : Contest → Option Submission → Handler
    unfolding contest_page
    contest_sub contest none w = (failure "submission not found", w)
    contest_sub contest (some sub) w =
        with_db failure (problems_for_contest contest_id) (contest_page contest sub) w

    unfoldable pub contest_begun : Contest → ContestStatus → Handler
    unfolding contest_sub with_username
    contest_begun contest upcoming w = with_username (lock contest) (viewer_id w) w
    contest_begun contest _ w =
        with_db failure (Submission.get_by_id v.json id) (contest_sub contest) w

    unfoldable pub contest_seen : Option Contest → Handler
    unfolding contest_begun
    contest_seen none w = (failure "contest not found", w)
    contest_seen (some contest) w = contest_begun contest (status contest v.first_reading) w

    unfoldable pub contest_submission_detail : Handler
    unfolding contest_seen
    contest_submission_detail w = with_db failure (Contest.get_by_id contest_id) contest_seen w

  -- `HeaderValue::from_str(&location).unwrap()`
  abbrev pub moved : String → Response
  moved location = if v.is_header_value location then no_content location else aborted

  abbrev pub poll_answer : Option String → String → Uuid → String × String × Bool → Response
  poll_answer contest_id location id (verdict, badge_class, is_pending) =
      if not is_pending then moved location else poll contest_id id verdict badge_class

  unfoldable pub polled : Option String → String → Option Submission → Handler
  unfolding verdict_info
  polled contest_id location none w = (failure "submission not found", w)
  polled contest_id location (some sub) w =
      (poll_answer contest_id location sub.id (verdict_info sub.status), w)

  unfoldable pub contest_submission_poll : String → Uuid → Handler
  unfolding polled
  contest_submission_poll contest_id id = with_db failure (Submission.get_by_id v.json id) (
      polled (some contest_id)
        (format ("/contests/" ∷ contest_id ∷ "/submissions/" ∷ v.print_uuid id ∷ [])))

  unfoldable pub submissions_poll : Uuid → Handler
  unfolding polled
  submissions_poll id =
      with_db failure (Submission.get_by_id v.json id)
        (polled none (format ("/submissions/" ∷ v.print_uuid id ∷ [])))

  abbrev pub show_alone : Submission → Option String → Handler
  show_alone sub name w = (detail (detail_of none "" false false sub name), w)

  unfoldable pub found_page : Option Submission → Handler
  unfolding detail_of with_username
  found_page none w = (failure "submission not found", w)
  found_page (some sub) w = with_username (show_alone sub) (current_user_id w.session) w

  unfoldable pub submissions_detail : Uuid → Handler
  unfolding found_page
  submissions_detail id = with_db failure (Submission.get_by_id v.json id) found_page

  found_result : Option Submission → Handler
  found_result none w = (status_code 404, w)
  found_result (some sub) w = (result sub, w)

  unfoldable pub api_get_result : Uuid → Handler
  unfolding found_result
  api_get_result id = with_db (λ e. status_code 500) (Submission.get_by_id v.json id) found_result
