-- ===== src/Api/Standings/Rows.antt =====
-- The rows of `contest_standings` of src/api/handlers.rs with their cells and totals, for each user from
-- the results that the database gives.
use mathlib.Core.Option
use mikan_judge.Prelude.{
  ℕ, ◌+◌, ◌-◌, ◌/◌, ◌%◌, ◌^◌, max, String, Option, none, some, List, [], ◌∷◌, eqb, ltb, ◌==◌,
  unwrap_or, is_some, format, decimal, if◌then◌else◌,
}
use mikan_judge.Types.Contest.{DateTime, ContestProblem}
use mikan_judge.Types.Records.{Uuid, F64, f64_zero}
use mikan_judge.Db.Lists.{Best}
use mikan_judge.Api.Contexts.{ProblemCell}
use mikan_judge.Api.Views.{Viewing, format_score}
use mikan_judge.Api.Standings.{RowWithRaw}

-- `{m:02}`
abbrev pub two_digits : ℕ → String
two_digits n = if ltb n 10 then format ("0" ∷ decimal n ∷ []) else decimal n

unfoldable pub fmt_elapsed : (secs : ℕ) → String
fmt_elapsed secs = format (
    decimal (secs / 3600) ∷ ":" ∷ two_digits (secs % 3600 / 60) ∷ ":" ∷ two_digits (secs % 60) ∷ [])

-- `(t - contest.start_time).num_seconds().max(0)`
abbrev pub secs_since : (start : DateTime) → DateTime → ℕ
secs_since start t = (t - start) / 1_000_000_000

-- A user's results by problem, the newest entry of the map in front.
pub record UserData (A : Type 0) : Type 0 where
  pub username : String
  pub results : List (String × A)

abbrev pub UserMap : Type 0 → Type 0
UserMap A = List (Uuid × UserData A)

module _ {A : Type 0} where
  abbrev pub result_in : String → List (String × A) → Option A
  result_in problem_id [] = none
  result_in problem_id ((k, v) ∷ rest) =
      if k == problem_id then some v else result_in problem_id rest

  abbrev pub with_result : Best A → UserData A → UserData A
  with_result row ud = record ud { results = (row.problem_id, row.value) ∷ ud.results }

  abbrev pub new_data : Best A → UserData A
  new_data row = record { username = row.username; results = [] }

  -- `user_map.entry(…).or_insert_with(…)` with the insertion behind it.
  unfoldable pub enter : Best A → UserMap A → UserMap A
  enter row [] = (row.user_id, with_result row (new_data row)) ∷ []
  enter row ((uid, ud) ∷ rest) =
      let later = enter row rest in
      if eqb uid row.user_id then (uid, with_result row ud) ∷ rest else (uid, ud) ∷ later

  unfoldable pub user_map_from : UserMap A → List (Best A) → UserMap A
  unfolding enter
  user_map_from m [] = m
  user_map_from m (row ∷ rows) = user_map_from (enter row m) rows

  unfoldable pub user_map : List (Best A) → UserMap A
  unfolding user_map_from
  user_map rows = user_map_from [] rows

-- The largest of two optional instants, as the loop keeps it.
abbrev pub later_of : Option DateTime → DateTime → DateTime
later_of none at = at
later_of (some prev) at = max prev at

module _ (start : DateTime) (score_of : String → ℕ) (solved : String → Option DateTime) where
  abbrev pub exact_cell : ContestProblem → ProblemCell
  exact_cell cp =
      let ac_at = solved cp.problem_id in
      record {
        label = cp.label;
        ac_time = Option.map (λ t. fmt_elapsed (secs_since start t)) ac_at;
        score = if is_some ac_at then decimal (score_of cp.problem_id) else "";
        has_result = is_some ac_at;
      }

  abbrev pub add_score : ℕ → ContestProblem → Option DateTime → ℕ
  add_score total cp none = total
  add_score total cp (some at) = (total + score_of cp.problem_id) % 2 ^ 64

  abbrev pub keep_later : Option DateTime → Option DateTime → Option DateTime
  keep_later last none = last
  keep_later last (some at) = some (later_of last at)

  -- The loop over the problems with `total_score`, a u64 that wraps around, and `last_ac`.
  unfoldable pub exact_cells :
      ℕ → Option DateTime → List ContestProblem → List ProblemCell × ℕ × Option DateTime
  unfolding fmt_elapsed
  exact_cells total last [] = ([], total, last)
  exact_cells total last (cp ∷ cps) =
      let at = solved cp.problem_id in
      let (cells, total', last') = exact_cells (add_score total cp at) (keep_later last at) cps in
      (exact_cell cp ∷ cells, total', last')

  unfoldable pub exact_row :
      (from_u64 : ℕ → F64) (username : String) → List ContestProblem → RowWithRaw
  unfolding exact_cells
  exact_row from_u64 username cps =
      let (cells, total, last) = exact_cells 0 none cps in
      record {
        row = record {
          rank = 0;
          username = username;
          total_score = decimal total;
          elapsed_from_start = Option.map (λ t. fmt_elapsed (secs_since start t)) last;
          problems = cells;
        };
        total_score_raw = from_u64 total;
        last_ac_raw = last;
      }

module _ (v : Viewing) (score_of : String → Option F64) where
  abbrev pub heuristic_cell : ContestProblem → ProblemCell
  heuristic_cell cp = record {
    label = cp.label;
    ac_time = none;
    score = unwrap_or (Option.map (format_score v.floats) (score_of cp.problem_id)) "";
    has_result = is_some (score_of cp.problem_id);
  }

  abbrev pub add_float : F64 → Option F64 → F64
  add_float total none = total
  add_float total (some s) = v.floats.add total s

  unfoldable pub heuristic_cells : F64 → List ContestProblem → List ProblemCell × F64
  unfolding format_score
  heuristic_cells total [] = ([], total)
  heuristic_cells total (cp ∷ cps) =
      let (cells, total') = heuristic_cells (add_float total (score_of cp.problem_id)) cps in
      (heuristic_cell cp ∷ cells, total')

  unfoldable pub heuristic_row : (username : String) → List ContestProblem → RowWithRaw
  unfolding heuristic_cells
  heuristic_row username cps =
      let (cells, total) = heuristic_cells f64_zero cps in
      record {
        row = record {
          rank = 0;
          username = username;
          total_score = format_score v.floats total;
          elapsed_from_start = none;
          problems = cells;
        };
        total_score_raw = total;
        last_ac_raw = none;
      }
