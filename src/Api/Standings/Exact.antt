-- ===== src/Api/Standings/Exact.antt =====
-- Who stands in the standings of an exact contest (`contest_standings` of src/api/handlers.rs).
use std.Path.{fun_ext}
use mikan_judge.Prelude.{
  ◌≤◌, ◌≡◌, ◌≢◌, ap, ◌∙◌, String, Bool, true, false, Option, some, List, [], map, min, count,
}
use mikan_judge.Prelude.Int.{ℤ}
use mikan_judge.Types.Contest.{DateTime, Contest, ContestProblem, upcoming, status}
use mikan_judge.Types.Status.{is_heuristic}
use mikan_judge.Types.Records.{Uuid, User}
use mikan_judge.Db.{SubmissionRow}
use mikan_judge.Db.Lists.Groups.{combined}
use mikan_judge.Db.Lists.Bests.{own_values}
use mikan_judge.Db.Outages.{query-answers}
use mikan_judge.Db.Contest.{problems_of}
use mikan_judge.Db.Users.{user_with}
use mikan_judge.Db.Lists.{accepted_at, best_query, first_acs_for_contest}
use mikan_judge.Api.{Response, World}
use mikan_judge.Api.Contexts.{StandingRow}
use mikan_judge.Api.Submit.InContest.{contest_in}
use mikan_judge.Api.Views.{Viewing}
use mikan_judge.Api.Standings.{RowWithRaw}
use mikan_judge.Api.Standings.Ranks.{unranked}
use mikan_judge.Api.Standings.Rows.{UserData, UserMap, user_map, exact_row, result_in}
use mikan_judge.Api.Standings.Table.{Tabling, points_of, tabled, contest_standings}
use mikan_judge.Api.Standings.Sums.{summed_row, exact_row-summed}
use mikan_judge.Api.Standings.Places.{
  values, standings-entry, whole_table, IsPage, ranked-IsPage, contest_standings-IsPage,
}
use mikan_judge.Api.Standings.Truth.{grouped, user_map-entry, min_assoc, min_comm}

-- When a user's earliest accepted submission to a problem of the contest came in.
abbrev pub first_accepted : String → Uuid → String → List SubmissionRow → Option DateTime
first_accepted contest_id uid pid rows =
    combined min (own_values (accepted_at contest_id) uid pid rows)

module _ (v : Viewing) (t : Tabling) (contest_id : String) (w : World) (contest : Contest)
    (page : Option ℤ) where
  abbrev cps : List ContestProblem
  cps = problems_of contest_id w.db

  -- The row of an entry of the map.
  abbrev pub row_of : UserData DateTime → RowWithRaw
  row_of ud =
      exact_row contest.start_time (points_of v t contest_id page cps)
        (λ pid. result_in pid ud.results) t.from_u64 ud.username cps

  abbrev pub rows_by_map : List RowWithRaw
  rows_by_map = map row_of (t.solved_values (user_map (grouped min (accepted_at contest_id) w.db)))

  -- The user's row by the submissions in the database.
  abbrev pub row_by_submissions : User → Uuid → RowWithRaw
  row_by_submissions u uid =
      summed_row contest.start_time (points_of v t contest_id page cps)
        (λ pid. first_accepted contest_id uid pid w.db.submissions) t.from_u64 u.username cps

module _ (v : Viewing) (t : Tabling) (contest_id : String) (w : World) (answers : w.db.outages ≡ [])
    (contest : Contest) (found : contest_in contest_id w.db ≡ some contest)
    (begun : status contest v.first_reading ≢ upcoming)
    (exact : is_heuristic contest.judge_type ≡ false) (page : Option ℤ) where
  abbrev Page : Response → Type 0
  Page = IsPage v t contest_id w contest page (rows_by_map v t contest_id w contest page)

  tabled-Page :
      (heuristic : Bool)
      → heuristic ≡ false
      → Page (tabled v t contest_id page contest (problems_of contest_id w.db) heuristic w).0
  unfolding tabled first_acs_for_contest
  tabled-Page true h = cc
  tabled-Page false h = rw (query-answers (best_query min (accepted_at contest_id)) w.db answers) (
      ranked-IsPage v t contest_id w contest page (rows_by_map v t contest_id w contest page)
        answers found begun)

  entry-row :
      (u : User) (uid : Uuid) (ud : UserData DateTime)
      → ud.username ≡ u.username
      → ((id : String)
          → result_in id ud.results ≡ first_accepted contest_id uid id w.db.submissions)
      → row_of v t contest_id w contest page ud
        ≡ row_by_submissions v t contest_id w contest page u uid
  entry-row u uid ud named same =
      let problems = problems_of contest_id w.db in
      let points = points_of v t contest_id page problems in
      exact_row-summed contest.start_time points (λ pid. result_in pid ud.results) t.from_u64
        ud.username problems
      ∙ ap (λ h. summed_row contest.start_time points h t.from_u64 ud.username problems)
          (fun_ext same)
      ∙ ap
          (λ name.
            summed_row contest.start_time points
              (λ pid. first_accepted contest_id uid pid w.db.submissions) t.from_u64 name problems)
          named

  module _
      (yields : (p : UserData DateTime → Bool) (m : UserMap DateTime)
        → count p (t.solved_values m) ≡ count p (values m))
      (uid : Uuid) (u : User) (there : user_with uid w.db.users ≡ some u) where
    -- In an exact contest that has begun, where the server answers and the map yields each of its
    -- entries once, whoever has an accepted submission for a problem of the contest stands in the
    -- standings of which the answer shows a page, with the row, its rank aside, that the submissions
    -- give: a problem counts as solved when there is an accepted submission of the user, at the time
    -- of the earliest, and the total is the sum of the scores of the contest's solved problems, on
    -- 64 bits.
    pub contest_standings-row :
        (pid : String) (at : DateTime)
        → first_accepted contest_id uid pid w.db.submissions ≡ some at
        → IsPage v t contest_id w contest page
            (rows_by_map v t contest_id w contest page)
            (contest_standings v t contest_id page w).0
          × ((p : StandingRow → Bool)
              → p (row_by_submissions v t contest_id w contest page u uid).row ≡ true
              → 1
                ≤ count
                    (λ r. p (unranked r))
                    (whole_table v t contest_id w contest page
                      (rows_by_map v t contest_id w contest page)))
    contest_standings-row pid at accepted =
        let (ud, entered, named, same) =
          user_map-entry min min_assoc min_comm (accepted_at contest_id) w.db uid u there pid at
            accepted in
        (
          contest_standings-IsPage v t contest_id w contest page
              (rows_by_map v t contest_id w contest page) answers found begun
              (tabled-Page (is_heuristic contest.judge_type) exact),
          standings-entry t.ops (is_heuristic contest.judge_type)
              (row_of v t contest_id w contest page) t.solved_values yields uid
              (user_map (grouped min (accepted_at contest_id) w.db))
              (row_by_submissions v t contest_id w contest page u uid) entered
              (entry-row u uid ud named same),
        )
