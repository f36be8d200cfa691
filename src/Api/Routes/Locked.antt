-- ===== src/Api/Routes/Locked.antt =====
-- The pages of a contest before it begins (src/api/handlers.rs).
use mikan_judge.Prelude.{◌≡◌, String, Option, some, []}
use mikan_judge.Types.Contest.{Contest, upcoming, status}
use mikan_judge.Types.Records.{Uuid}
use mikan_judge.Db.Outages.{query-answers}
use mikan_judge.Db.Contest
use mikan_judge.Db.Contest.{get_query, into_contest}
use mikan_judge.Api.{Response, locked, World, Handler}
use mikan_judge.Api.Views.{Viewing, contest_submission_detail, contest_begun, contest_seen}
use mikan_judge.Api.Contests.{
  begun, with_contest, contest_detail, contest_problems_index, contest_problem_detail,
}
use mikan_judge.Api.Contests.Begun.{with_contest-begun, for_user-named}
use mikan_judge.Api.Lists.{contest_submissions_index, contest_submissions_my}
use mikan_judge.Api.Standings.Table.{Tabling, contest_standings}
use mikan_judge.Api.Submit.InContest.{contest_in}
use mikan_judge.Api.Routes.{
  ContestPage, overview, problem_list, problem, all_submissions, own_submissions, submission,
  standings, target_path, handler_of,
}

-- The page that says that the contest has not begun, under the name of who asks.
abbrev pub LockedAt : Contest → String → Response → Type 0
LockedAt contest target response = (name : Option String) × (response ≡ locked contest target name)

module _ (v : Viewing) (contest_id : String) (w : World) (answers : w.db.outages ≡ [])
    (contest : Contest) (found : contest_in contest_id w.db ≡ some contest) where
  module _ (t : Tabling) (ahead : status contest v.first_reading ≡ upcoming) where
    with_contest-Locked :
        (target : String) (next : Contest → Handler)
        → LockedAt contest target (with_contest v contest_id target next w).0
    unfolding begun
    with_contest-Locked target next =
        rw (with_contest-begun v contest_id w answers contest found target next, ahead)
          (for_user-named (locked contest target) w)

    submission-Locked :
        (id : Uuid)
        → LockedAt contest
            (target_path v t contest_id (submission id))
            (contest_submission_detail v contest_id id w).0
    unfolding contest_submission_detail contest_seen contest_begun Contest.get_by_id
    submission-Locked id =
        rw (query-answers (get_query contest_id) w.db answers, found, ahead)
          (for_user-named (locked contest (target_path v t contest_id (submission id))) w)

    -- Before a contest begins, by the reading of the clock, each of its pages is the page that says
    -- so, with the address of the page asked for and none of its problems, submissions or standings,
    -- where the server answers and finds the contest.
    pub handler_of-Locked :
        (page : ContestPage)
        → LockedAt contest (target_path v t contest_id page) (handler_of v t contest_id page w).0
    unfolding handler_of contest_detail contest_problems_index contest_problem_detail
        contest_submissions_index contest_submissions_my contest_standings
    handler_of-Locked overview = with_contest-Locked _ _
    handler_of-Locked problem_list = with_contest-Locked _ _
    handler_of-Locked (problem problem_id cooldown) = with_contest-Locked _ _
    handler_of-Locked (all_submissions page) = with_contest-Locked _ _
    handler_of-Locked (own_submissions page) = with_contest-Locked _ _
    handler_of-Locked (submission id) = submission-Locked id
    handler_of-Locked (standings page) = with_contest-Locked _ _
