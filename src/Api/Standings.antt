-- ===== src/Api/Standings.antt =====
-- The order and the ranks of `contest_standings` of src/api/handlers.rs, from the rows with their
-- totals on.
pub mod Ranks
pub mod Rows
pub mod Results
pub mod Sums
pub mod Names
pub mod Truth
pub mod Places
pub mod Exact
pub mod Heuristic
pub mod Table
pub mod Tests
use mikan_judge.Prelude.{
  ℕ, suc, ◌+◌, String, Bool, true, false, not, ◌&&◌, ◌||◌, ◌==◌, Option, none, some, List, [], ◌∷◌,
  leb, text_leb, sort_by, if◌then◌else◌,
}
use mikan_judge.Types.Contest.{DateTime}
use mikan_judge.Types.Records.{F64}
use mikan_judge.Api.Contexts.{ProblemCell, StandingRow}

pub record RowWithRaw : Type 0 where
  pub row : StandingRow
  pub total_score_raw : F64
  pub last_ac_raw : Option DateTime

-- Two scores in order: less, more, or neither (`Equal`, and `None` where one is no number).
pub data ScoreOrder : Type 0 where
  less more equal : ScoreOrder

-- `partial_cmp`, and `(a - b).abs() <= f64::EPSILON`.
pub record ScoreOps : Type 0 where
  pub partial_cmp : F64 → F64 → ScoreOrder
  pub near : F64 → F64 → Bool

-- Whether the second key lets `a` stand in front of `b`.
tie_leb : RowWithRaw → RowWithRaw → Option DateTime → Option DateTime → Bool
tie_leb a b (some at) (some bt) = leb at bt
tie_leb a b none (some bt) = false
tie_leb a b (some at) none = true
tie_leb a b none none = text_leb a.row.username b.row.username

row_leb : RowWithRaw → RowWithRaw → ScoreOrder → Bool
row_leb a b less = true
row_leb a b more = false
row_leb a b equal = tie_leb a b a.last_ac_raw b.last_ac_raw

abbrev same_elapsed : Option String → Option String → Bool
same_elapsed none none = true
same_elapsed none (some t) = false
same_elapsed (some s) none = false
same_elapsed (some s) (some t) = s == t

module _ (ops : ScoreOps) where
  -- The comparison of the sort: the greater score is in front.
  unfoldable pub in_front : RowWithRaw → RowWithRaw → Bool
  unfolding row_leb tie_leb
  in_front a b = row_leb a b (ops.partial_cmp b.total_score_raw a.total_score_raw)

  same_score : Option F64 → F64 → Bool
  same_score none total = false
  same_score (some s) total = ops.near total s

  module _ (is_heuristic : Bool) where
    -- The row at place `i` opens a new rank, behind the row that opened the one before.
    unfoldable pub opens : Option F64 → Option String → RowWithRaw → Bool
    unfolding same_score
    opens prev_score prev_elapsed r =
        not (same_score prev_score r.total_score_raw)
        || not is_heuristic && not (same_elapsed r.row.elapsed_from_start prev_elapsed)

    -- The loop with its variables, from place `i` on.
    unfoldable pub rank_from :
        (i : ℕ)
        → Option F64
        → Option String
        → (current_rank : ℕ) → List RowWithRaw
        → List StandingRow
    unfolding opens
    rank_from i prev_score prev_elapsed current_rank [] = []
    rank_from i prev_score prev_elapsed current_rank (r ∷ rs) =
        let behind =
          rank_from (suc i) (some r.total_score_raw) r.row.elapsed_from_start (suc i) rs in
        let along = rank_from (suc i) prev_score prev_elapsed current_rank rs in
        if opens prev_score prev_elapsed r
        then record (r.row) { rank = suc i } ∷ behind
        else record (r.row) { rank = current_rank } ∷ along

    unfoldable pub standings : List RowWithRaw → List StandingRow
    unfolding rank_from in_front
    standings rows = rank_from 0 none none 0 (sort_by in_front rows)
