-- ===== src/Site.antt =====
-- The running program: the handlers that change state (src/api/handlers.rs), as src/api/mod.rs gives
-- them to their routes, beside the workers of src/worker/mod.rs on one database and one channel. A
-- handler's queries run without a worker's between them.
pub mod Calm
pub mod Sound
mod Tests
use mikan_judge.Prelude.{ℕ, String, Bool, Option, List, [], ◌∷◌, ◌≡◌}
use mikan_judge.Types.Records.{Uuid, SubmitRequest}
use mikan_judge.Db.{Database}
use mikan_judge.Db.Submission.{Json}
use mikan_judge.Worker.{JudgeJob}
use mikan_judge.Worker.Pool.{Pool, Event, Step, sent_in, spawn_workers}
use mikan_judge.Api.{World, Handler}
use mikan_judge.Api.Sessions.{Session}
use mikan_judge.Api.Auth
use mikan_judge.Api.Auth.{Argon2, AuthForm}
use mikan_judge.Api.Submit.{
  Request, ProblemSubmitForm, contest_problem_submit, problems_submit, api_submit,
}

-- The POST requests, with what each meets.
pub data Post : Type 0 where
  register : (argon2 : Argon2) (new_id : Uuid) → AuthForm → Post
  login : (argon2 : Argon2) → AuthForm → Post
  logout : Post
  settings : (default_language : Option String) → Post
  change_password : (argon2 : Argon2) (current_password new_password : String) → Post
  delete_account : (argon2 : Argon2) (password : String) → Post
  contest_submit : Request → (contest_id problem_id : String) → ProblemSubmitForm → Post
  problem_submit : Request → (problem_id : String) → ProblemSubmitForm → Post
  submit : Request → SubmitRequest → Post

unfoldable pub handle : Post → Handler
handle (Post.register argon2 new_id form) = Auth.register argon2 new_id form
handle (Post.login argon2 form) = Auth.login argon2 form
handle Post.logout = Auth.logout
handle (Post.settings default_language) = Auth.settings_post default_language
handle (Post.change_password argon2 current new) = Auth.change_password argon2 current new
handle (Post.delete_account argon2 password) = Auth.delete_account argon2 password
handle (contest_submit rq contest_id problem_id form) =
    contest_problem_submit rq contest_id problem_id form
handle (problem_submit rq problem_id form) = problems_submit rq problem_id form
handle (submit rq req) = api_submit rq req

-- What a request with a session meets.
abbrev pub world : Session → Pool → World
world session p = record { db = p.db; session = session; queue = p.queue; is_open = p.is_open }

abbrev pub behind : World → Pool → Pool
behind w p = record p { db = w.db; queue = w.queue }

module _ (json : Json) where
  pub data SiteStep : Pool → Pool → Type 0 where
    -- A request, from whatever session.
    posted :
        {p : Pool} (r : Post) (session : Session)
        → SiteStep p (behind (handle r (world session p)).1 p)
    -- A step of a worker, or the end of the server.
    worked : {p q : Pool} {e : Event} → Step json p e q → sent_in (e ∷ []) ≡ [] → SiteStep p q

  -- Requests and workers in any order.
  pub data SiteRun (p : Pool) : Pool → Type 0 where
    start : SiteRun p p
    step : {q r : Pool} → SiteRun p q → SiteStep q r → SiteRun p r
