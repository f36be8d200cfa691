-- ===== src/Types/Contest.antt =====
-- `struct Contest` and `enum ContestStatus` of src/types.rs. A `DateTime<Utc>` is the number of
-- nanoseconds since the Unix epoch; instants before it are not modelled.
pub mod Order
use mikan_judge.Prelude.{ℕ, String, ltb, leb, if◌then◌else◌}
use mikan_judge.Types.Status.{JudgeType}

abbrev pub DateTime : Type 0
DateTime = ℕ

pub record ContestProblem : Type 0 where
  pub label : String
  pub problem_id : String
  pub display_order : ℕ

pub data ContestStatus : Type 0 where
  upcoming ongoing past : ContestStatus

unfoldable pub label : ContestStatus → String
label upcoming = "予定"
label ongoing = "開催中"
label past = "終了"

unfoldable pub badge_class : ContestStatus → String
badge_class upcoming = "pending"
badge_class ongoing = "ac"
badge_class past = "ce"

pub record Contest : Type 0 where
  pub id : String
  pub title : String
  pub description : String
  pub start_time : DateTime
  pub end_time : DateTime
  pub judge_type : JudgeType

-- `now` is what the call of `Utc::now()` in the method returns.
unfoldable pub status : Contest → (now : DateTime) → ContestStatus
status contest now =
    if ltb now contest.start_time
    then upcoming
    else if leb now contest.end_time
    then ongoing
    else past
