-- ===== src/Api/Standings/Heuristic.antt =====
-- Who stands in the standings of a heuristic contest (`contest_standings` of src/api/handlers.rs).
use mikan_judge.Prelude.{◌≡◌, ◌≢◌, String, true, Option, some, List, [], map}
use mikan_judge.Prelude.Int.{ℤ}
use mikan_judge.Types.Contest.{Contest, ContestProblem, upcoming, status}
use mikan_judge.Types.Status.{is_heuristic}
use mikan_judge.Types.Records.{Uuid, User, F64}
use mikan_judge.Db.{SubmissionRow}
use mikan_judge.Db.Lists.Groups.{combined}
use mikan_judge.Db.Lists.Bests.{own_values}
use mikan_judge.Db.Contest.{problems_of}
use mikan_judge.Db.Lists.{scored_value}
use mikan_judge.Api.{Response, World}
use mikan_judge.Api.Submit.InContest.{contest_in}
use mikan_judge.Api.Views.{Viewing}
use mikan_judge.Api.Standings.{RowWithRaw}
use mikan_judge.Api.Standings.Rows.{UserData, user_map, heuristic_row, result_in}
use mikan_judge.Api.Standings.Table.{Tabling}
use mikan_judge.Api.Standings.Places.{IsPage}
use mikan_judge.Api.Standings.Truth.{grouped}

-- A user's best score for a problem of the contest; `greatest` is the server's MAX.
abbrev pub best_score :
    (greatest : F64 → F64 → F64) → String → Uuid → String → List SubmissionRow → Option F64
best_score greatest contest_id uid pid rows =
    combined greatest (own_values (scored_value contest_id) uid pid rows)

module _ (v : Viewing) (t : Tabling) (contest_id : String) (w : World) where
  abbrev cps : List ContestProblem
  cps = problems_of contest_id w.db

  -- The row of an entry of the map.
  abbrev pub score_row_of : UserData F64 → RowWithRaw
  score_row_of ud = heuristic_row v (λ pid. result_in pid ud.results) ud.username cps

  abbrev pub rows_by_scores : List RowWithRaw
  rows_by_scores =
      map score_row_of
        (t.score_values (user_map (grouped t.greatest (scored_value contest_id) w.db)))

  -- The user's row by the submissions in the database.
  abbrev pub best_row : User → Uuid → RowWithRaw
  best_row u uid =
      heuristic_row v (λ pid. best_score t.greatest contest_id uid pid w.db.submissions) u.username
        cps

module _ (v : Viewing) (t : Tabling) (contest_id : String) (w : World) (answers : w.db.outages ≡ [])
    (contest : Contest) (found : contest_in contest_id w.db ≡ some contest)
    (begun : status contest v.first_reading ≢ upcoming)
    (by_score : is_heuristic contest.judge_type ≡ true) (page : Option ℤ) where
  abbrev Page : Response → Type 0
  Page = IsPage v t contest_id w contest page (rows_by_scores v t contest_id w)
