-- ===== src/Db.antt =====
-- db/: the tables, and how a query runs. A table is the list of its rows in the order of
-- insertion, and a query of the source is the function on tables that its SQL text states. Before
-- each query the schedule `outages` says whether the server fails it, and by what message.
pub mod Outages
pub mod Users
pub mod Contest
pub mod Submission
pub mod Lists
mod Tests
use mikan_judge.Prelude.{ℕ, String, Bool, Option, none, some, List, [], ◌∷◌}
use mikan_judge.Prelude.Int.{ℤ}
use mikan_judge.Prelude.Outcome.{Outcome, ok, err, panic, out_of_fuel}
use mikan_judge.Types.Contest.{DateTime, ContestProblem}
use mikan_judge.Types.Records.{Uuid, F64, User}

pub record SubmissionRow : Type 0 where
  pub id : Uuid
  pub user_id : Option Uuid
  pub contest_id : Option String
  pub problem_id : String
  pub language : String
  pub source_code : String
  pub status : String
  pub time_used_ms : Option ℤ
  pub memory_used_kb : Option ℤ
  pub stdout : Option String
  pub stderr : Option String
  pub testcase_results : Option String
  pub score : Option F64
  pub created_at : DateTime

pub record ContestRow : Type 0 where
  pub id : String
  pub title : String
  pub description : String
  pub start_time : DateTime
  pub end_time : DateTime
  pub judge_type : String

pub record ContestProblemRow : Type 0 where
  pub contest_id : String
  pub problem : ContestProblem

-- A row of `tower_sessions`: `data_str` is the column `data`, `expiry_unix` is in seconds.
pub record SessionRow : Type 0 where
  pub id : String
  pub data_str : String
  pub expiry_unix : ℕ

pub record Database : Type 0 where
  pub users : List User
  pub submissions : List SubmissionRow
  pub contests : List ContestRow
  pub contest_problems : List ContestProblemRow
  pub tower_sessions : List SessionRow
  -- the order in which the query for a page takes rows that its ORDER BY leaves equal
  pub ties : (page : ℕ) → Uuid → ℕ
  pub outages : List (Option String)

abbrev pub Db {ℓ} : Type ℓ → Type ℓ
Db A = Database → Outcome A × Database

module _ {ℓ} {A : Type ℓ} where
  abbrev pub attempt : List (Option String) → Db A → Db A
  attempt [] q db = q db
  attempt (none ∷ rest) q db = q (record db { outages = rest })
  attempt (some message ∷ rest) q db = (err message, record db { outages = rest })

  -- One round trip to the server.
  abbrev pub query : Db A → Db A
  query q db = attempt db.outages q db

module _ {ℓ κ} {A : Type ℓ} {B : Type κ} where
  abbrev continue : Outcome A → (A → Db B) → Db B
  continue (ok a) f db = f a db
  continue (err e) f db = (err e, db)
  continue panic f db = (panic, db)
  continue out_of_fuel f db = (out_of_fuel, db)

  infixl 5 ◌>>=◌
  abbrev pub ◌>>=◌ : Db A → (A → Db B) → Db B
  ◌>>=◌ m f db = let (r, db') = m db in continue r f db'
