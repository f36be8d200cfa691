-- ===== src/Types/Records.antt =====
-- The records of src/types.rs that requests and the database carry.
use mikan_judge.Prelude.{ℕ, String, Option, List}
use mikan_judge.Prelude.Outcome.{Outcome}
use mikan_judge.Types.Language.{Language}
use mikan_judge.Types.Status.{JudgeStatus}

-- The 128 bits of a UUID, as a number.
abbrev pub Uuid : Type 0
Uuid = ℕ

-- The 64 bits of an `f64`, as a number; the operations on them are `FloatOps`.
abbrev pub F64 : Type 0
F64 = ℕ

-- The bits of `0.0`.
abbrev pub f64_zero : F64
f64_zero = 0

-- What the program uses of `f64`: addition, `str::parse` with its error's text, and the printing
-- with six decimals of `format!("{value:.6}")`.
pub record FloatOps : Type 0 where
  pub add : F64 → F64 → F64
  pub parse : String → Outcome F64
  pub print : F64 → String

pub record User : Type 0 where
  pub id : Uuid
  pub username : String
  pub password_hash : String
  pub default_language : Option String

pub record TestcaseVerdict : Type 0 where
  pub verdict : String
  pub time_ms : Option ℕ
  pub memory_kb : Option ℕ
  pub score : Option F64

pub record Submission : Type 0 where
  pub id : Uuid
  pub user_id : Option Uuid
  pub contest_id : Option String
  pub source_code : String
  pub language : Language
  pub problem_id : String
  pub status : JudgeStatus
  pub time_used_ms : Option ℕ
  pub memory_used_kb : Option ℕ
  pub stdout : Option String
  pub stderr : Option String
  pub testcase_results : Option (List TestcaseVerdict)
  pub score : Option F64

pub record SubmitRequest : Type 0 where
  pub source_code : String
  pub language : Language
  pub problem_id : String
  pub stdin : String
  pub expected_output : String
  pub time_limit_ms : ℕ
  pub memory_limit_kb : ℕ
