-- ===== src/Api/Standings/Table.antt =====
-- The rest of `contest_standings` of src/api/handlers.rs: the queries, the standings of the
-- rows, and the page that is cut from them.
use mathlib.Core.Option
use mikan_judge.Prelude.{
  ℕ, String, Bool, true, false, Option, List, map, filter_map, length, unwrap_or,
}
use mikan_judge.Prelude.Int.{ℤ}
use mikan_judge.Types.Contest.{DateTime, Contest, ContestProblem}
use mikan_judge.Types.Status.{is_heuristic}
use mikan_judge.Types.Records.{F64}
use mikan_judge.Problem.{success, load_one}
use mikan_judge.Db.Contest.{problems_for_contest}
use mikan_judge.Db.Lists.{Best, first_acs_for_contest, best_scores_for_contest}
use mikan_judge.Api.{Response, standings_page, failure, Handler, with_db}
use mikan_judge.Api.Contexts.{StandingRow, ProblemHeader}
use mikan_judge.Api.Paging.{total_pages, page_of, build_pagination, page_rows}
use mikan_judge.Api.Views.{Viewing, with_username}
use mikan_judge.Api.Contests.{for_user, with_contest, under}
use mikan_judge.Api.Lists.{map_get}
use mikan_judge.Api.Standings.{RowWithRaw, ScoreOps, standings}
use mikan_judge.Api.Standings.Rows.{
  UserData, UserMap, result_in, user_map, exact_row, heuristic_row,
}

-- What is not the program's: `as f64`, the server's MAX, and the order in which a `HashMap` gives its
-- values.
pub record Tabling : Type 0 where
  pub ops : ScoreOps
  pub from_u64 : ℕ → F64
  pub greatest : F64 → F64 → F64
  pub solved_values : UserMap DateTime → List (UserData DateTime)
  pub score_values : UserMap F64 → List (UserData F64)

module _ (v : Viewing) (t : Tabling) (contest_id : String) (page : Option ℤ) where
  abbrev pub score_map : List ContestProblem → List (String × ℕ)
  score_map cps =
      filter_map
        (λ cp.
          Option.map (λ prob. (cp.problem_id, prob.score))
            (success (load_one v.fs v.problems_dir cp.problem_id)))
        cps

  abbrev pub points_of : List ContestProblem → String → ℕ
  points_of cps problem_id = unwrap_or (map_get problem_id (score_map cps)) 0

  abbrev pub exact_rows : Contest → List ContestProblem → List (Best DateTime) → List RowWithRaw
  exact_rows contest cps firsts =
      map
        (λ ud.
          exact_row contest.start_time (points_of cps) (λ id. result_in id ud.results) t.from_u64
            ud.username cps)
        (t.solved_values (user_map firsts))

  abbrev pub heuristic_rows : List ContestProblem → List (Best F64) → List RowWithRaw
  heuristic_rows cps bests =
      map (λ ud. heuristic_row v (λ id. result_in id ud.results) ud.username cps)
        (t.score_values (user_map bests))

  abbrev pub problem_headers : List ContestProblem → List ProblemHeader
  problem_headers cps =
      filter_map
        (λ cp.
          Option.map
            (λ p. record {
              label = cp.label;
              problem_id = cp.problem_id;
              title = p.title;
              score = p.score;
            })
            (success (load_one v.fs v.problems_dir cp.problem_id)))
        cps

  abbrev pub table_page :
      Contest → List ContestProblem → List StandingRow → Option String → Response
  table_page contest cps rows name =
      let pages = total_pages (length rows) in
      let current = page_of page pages in
      standings_page (record {
        contest_id = contest_id;
        contest_title = contest.title;
        is_heuristic = is_heuristic contest.judge_type;
        problem_headers = problem_headers cps;
        standings = page_rows current rows;
        current_page = current;
        total_pages = pages;
        pagination = build_pagination current pages;
        current_user = name;
      })

  abbrev pub ranked : Contest → List ContestProblem → List RowWithRaw → Handler
  ranked contest cps rows =
      for_user (table_page contest cps (standings t.ops (is_heuristic contest.judge_type) rows))

  unfoldable pub tabled : Contest → List ContestProblem → (heuristic : Bool) → Handler
  unfolding exact_row heuristic_row with_username user_map
  tabled contest cps true =
      with_db failure (best_scores_for_contest t.greatest contest_id)
        λ bests. ranked contest cps (heuristic_rows cps bests)
  tabled contest cps false =
      with_db failure (first_acs_for_contest contest_id)
        λ firsts. ranked contest cps (exact_rows contest cps firsts)

  unfoldable pub contest_standings : Handler
  unfolding with_contest tabled
  contest_standings = with_contest v contest_id (under v contest_id "/standings") λ contest.
      with_db failure (problems_for_contest contest_id)
        λ cps. tabled contest cps (is_heuristic contest.judge_type)
