-- ===== src/Types/Status.antt =====
-- `enum JudgeStatus` and `enum JudgeType` of src/types.rs, with the texts that stand for them in
-- the database.
pub mod Database
use mikan_judge.Prelude.{String, Bool, true, false, ◌==◌, if◌then◌else◌}
use mikan_judge.Prelude.Int.{ℤ, negsuc}

pub data JudgeType : Type 0 where
  exact heuristic : JudgeType

unfoldable pub judge_type_from_db : String → JudgeType
judge_type_from_db s = if s == "heuristic" then heuristic else exact

-- `judge_type == JudgeType::Heuristic`, by the derived `PartialEq`.
abbrev pub is_heuristic : JudgeType → Bool
is_heuristic heuristic = true
is_heuristic exact = false

pub data JudgeStatus : Type 0 where
  pending running accepted wrong_answer time_limit_exceeded memory_limit_exceeded : JudgeStatus
  runtime_error : (exit_code : ℤ) → JudgeStatus
  compile_error : (message : String) → JudgeStatus
  internal_error : (message : String) → JudgeStatus
  scored : JudgeStatus

unfoldable pub status_to_db : JudgeStatus → String
status_to_db pending = "pending"
status_to_db running = "running"
status_to_db accepted = "accepted"
status_to_db wrong_answer = "wrong_answer"
status_to_db time_limit_exceeded = "time_limit_exceeded"
status_to_db memory_limit_exceeded = "memory_limit_exceeded"
status_to_db (runtime_error _) = "runtime_error"
status_to_db (compile_error _) = "compile_error"
status_to_db (internal_error _) = "internal_error"
status_to_db scored = "scored"

unfoldable pub status_from_db : String → JudgeStatus
status_from_db s =
    if s == "running"
    then running
    else if s == "accepted"
    then accepted
    else if s == "wrong_answer"
    then wrong_answer
    else if s == "time_limit_exceeded"
    then time_limit_exceeded
    else if s == "memory_limit_exceeded"
    then memory_limit_exceeded
    else if s == "runtime_error"
    then runtime_error (negsuc 0)
    else if s == "compile_error"
    then compile_error ""
    else if s == "internal_error"
    then internal_error ""
    else if s == "scored"
    then scored
    else pending

-- `matches!(status, JudgeStatus::Accepted | JudgeStatus::Scored)`
abbrev pub is_success : JudgeStatus → Bool
is_success accepted = true
is_success scored = true
is_success _ = false
