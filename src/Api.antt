-- ===== src/Api.antt =====
-- api/handlers.rs: what the handlers share. A handler maps the state `World` that a request meets to
-- its response and the state behind it.
pub mod Contexts
pub mod Sessions
pub mod Submit
pub mod Auth
pub mod Views
pub mod Contests
pub mod Lists
pub mod Pages
pub mod Routes
pub mod Paging
pub mod Standings
pub mod Tests
use mikan_judge.Prelude.{ℕ, ◌*◌, String, Bool, true, false, Option, List, ltb, utf8_len}
use mikan_judge.Prelude.Outcome.{Outcome, ok, err, panic, out_of_fuel}
use mikan_judge.Types.Status.{
  JudgeStatus, pending, running, accepted, wrong_answer, time_limit_exceeded, memory_limit_exceeded,
  runtime_error, compile_error, internal_error, scored,
}
use mikan_judge.Types.Contest.{Contest}
use mikan_judge.Types.Records.{Uuid, Submission}
use mikan_judge.Problem.{Problem}
use mikan_judge.Db.{Database, Db}
use mikan_judge.Worker.{JudgeJob}
use mikan_judge.Api.Contexts.{
  Detail, Listing, ContestItem, LanguageGuideItem, ProblemItem, ProblemPage, StandingsPage,
}
use mikan_judge.Api.Sessions.{Session}

-- What a handler answers; rendering a template is taken to succeed. `failure` is `HtmlError`, and
-- `aborted` a panic of the request's task.
pub data Response : Type 0 where
  redirect : (location : String) → Response
  detail : Detail → Response
  listing : Listing → Response
  contest_list :
      (template : String) (ongoing upcoming past : List ContestItem) (current_user : Option String)
      → Response
  guide : List LanguageGuideItem → (current_user : Option String) → Response
  problem_list :
      (contest_id contest_title : String)
      → List ProblemItem
      → (current_user : Option String) → Response
  problems : List Problem → (current_user : Option String) → Response
  problem_page : ProblemPage → Response
  standings_page : StandingsPage → Response
  poll : (contest_id : Option String) (id : Uuid) (verdict badge_class : String) → Response
  locked : (contest : Contest) (target_path : String) (current_user : Option String) → Response
  forbidden : (contest_id contest_title : String) (current_user : Option String) → Response
  result : Submission → Response
  too_large : Response
  failure : (message : String) → Response
  status_code : ℕ → Response
  created : (id : Uuid) → Response
  no_content : (hx_redirect : String) → Response
  form :
      (template : String) (current_user default_language error : Option String) (success : Bool)
      → Response
  aborted : Response

-- `queue` is the channel with the oldest job first; it is closed once no worker is left to receive.
pub record World : Type 0 where
  pub db : Database
  pub session : Session
  pub queue : List JudgeJob
  pub is_open : Bool

abbrev pub Handler : Type 0
Handler = World → Response × World

-- How `?` goes on or answers; the handler names the response to an error.
module _ {A : Type 0} (on_error : String → Response) where
  abbrev pub resolve : Outcome A → (A → Handler) → Handler
  resolve (ok a) k w = k a w
  resolve (err e) k w = (on_error e, w)
  resolve panic k w = (aborted, w)
  resolve out_of_fuel k w = (aborted, w)

  abbrev pub with_db : Db A → (A → Handler) → Handler
  with_db q k w = let (r, db') = q w.db in resolve r k (record w { db = db' })

abbrev pub max_source_code_bytes : ℕ
max_source_code_bytes = 512 * 1024

unfoldable pub source_code_too_large : String → Bool
source_code_too_large source_code = ltb max_source_code_bytes (utf8_len source_code)

unfoldable pub verdict_info : JudgeStatus → String × String × Bool
verdict_info pending = ("待機中", "pending", true)
verdict_info running = ("ジャッジ中...", "running", true)
verdict_info accepted = ("AC", "ac", false)
verdict_info wrong_answer = ("WA", "wa", false)
verdict_info time_limit_exceeded = ("TLE", "tle", false)
verdict_info memory_limit_exceeded = ("MLE", "mle", false)
verdict_info (runtime_error _) = ("RE", "re", false)
verdict_info (compile_error _) = ("CE", "ce", false)
verdict_info (internal_error _) = ("IE", "ce", false)
verdict_info scored = ("Scored", "ac", false)
