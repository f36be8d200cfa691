-- ===== src/Api/Routes.antt =====
-- The pages of a contest in the router of src/api/mod.rs, each with its path and its handler.
pub mod Locked
mod Tests
use mikan_judge.Prelude.{String, Option, List, [], ◌∷◌, format}
use mikan_judge.Prelude.Int.{ℤ}
use mikan_judge.Types.Records.{Uuid}
use mikan_judge.Api.{Handler}
use mikan_judge.Api.Views.{Viewing, contest_submission_detail}
use mikan_judge.Api.Contests.{contest_detail, contest_problems_index, contest_problem_detail, under}
use mikan_judge.Api.Lists.{contest_submissions_index, contest_submissions_my}
use mikan_judge.Api.Standings.Table.{Tabling, contest_standings}

-- What the address names behind the contest, with the values of its query.
pub data ContestPage : Type 0 where
  overview : ContestPage
  problem_list : ContestPage
  problem : (problem_id : String) (cooldown_remaining_ms : Option ℤ) → ContestPage
  all_submissions : (page : Option ℤ) → ContestPage
  own_submissions : (page : Option ℤ) → ContestPage
  submission : (id : Uuid) → ContestPage
  standings : (page : Option ℤ) → ContestPage

module _ (v : Viewing) (t : Tabling) (contest_id : String) where
  -- The address that the page has, or leads to; the page says it before the contest begins.
  abbrev pub target_path : ContestPage → String
  target_path overview = under v contest_id "/problems"
  target_path problem_list = under v contest_id "/problems"
  target_path (problem problem_id cooldown) =
      format (under v contest_id "/problems/" ∷ problem_id ∷ [])
  target_path (all_submissions page) = under v contest_id "/submissions"
  target_path (own_submissions page) = under v contest_id "/submissions/my"
  target_path (submission id) =
      format ("/contests/" ∷ contest_id ∷ "/submissions/" ∷ v.print_uuid id ∷ [])
  target_path (standings page) = under v contest_id "/standings"

  unfoldable pub handler_of : ContestPage → Handler
  unfolding contest_detail contest_problems_index contest_problem_detail contest_submissions_index
      contest_submissions_my contest_submission_detail contest_standings
  handler_of overview = contest_detail v contest_id
  handler_of problem_list = contest_problems_index v contest_id
  handler_of (problem problem_id cooldown) = contest_problem_detail v contest_id problem_id cooldown
  handler_of (all_submissions page) = contest_submissions_index v contest_id page
  handler_of (own_submissions page) = contest_submissions_my v contest_id page
  handler_of (submission id) = contest_submission_detail v contest_id id
  handler_of (standings page) = contest_standings v t contest_id page
