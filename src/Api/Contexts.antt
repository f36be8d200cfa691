-- ===== src/Api/Contexts.antt =====
-- What the templates of the pages in src/api/handlers.rs are given.
use mikan_judge.Prelude.{ℕ, String, Bool, Option, List}
use mikan_judge.Prelude.Int.{ℤ}
use mikan_judge.Types.Records.{Uuid, TestcaseVerdict}
use mikan_judge.Problem.{Problem}

-- What the page of one submission is given.
pub record Detail : Type 0 where
  -- the contest's id and title, on the pages of a contest
  pub contest : Option (String × String)
  pub id : Uuid
  pub problem_id : String
  pub problem_title : String
  pub problem_label : String
  pub language : String
  pub lang_codemirror : String
  pub source_code : String
  pub verdict : String
  pub badge_class : String
  pub is_pending : Bool
  pub time_used_ms : Option ℕ
  pub memory_used_kb : Option ℕ
  pub stdout : Option String
  pub stderr : Option String
  pub testcase_results : Option (List TestcaseVerdict)
  pub problem_score : Option ℕ
  pub submission_score : Option String
  pub is_accepted : Bool
  pub is_scored : Bool
  pub is_heuristic : Bool
  pub current_user : Option String

pub record SubmissionListItem : Type 0 where
  pub id : String
  pub problem_id : String
  pub problem_label : String
  pub problem_title : String
  pub username : Option String
  pub language : String
  pub verdict : String
  pub badge_class : String
  pub time_used_ms : Option ℕ
  pub memory_used_kb : Option ℕ
  pub tc_summary : Option String
  pub score : Option String

-- A page of submissions: in a contest with its numbers, outside with none.
pub record Listing : Type 0 where
  pub contest : Option (String × String)
  pub is_restricted : Bool
  pub is_heuristic : Bool
  pub submissions : List SubmissionListItem
  pub current_page : ℕ
  pub total_pages : ℕ
  pub pagination : List ℕ
  pub current_user : Option String

pub record ContestItem : Type 0 where
  pub id : String
  pub title : String
  pub description : String
  pub start_time : String
  pub end_time : String
  pub status_label : String
  pub status_class : String

pub record LanguageGuideItem : Type 0 where
  pub name : String
  pub version : String
  pub source_file : String
  pub compile_command : String
  pub run_command : String
  pub libraries : String
  pub notes : String

pub record ProblemItem : Type 0 where
  pub label : String
  pub id : String
  pub title : String
  pub score : ℕ
  pub time_limit_ms : ℕ
  pub memory_limit_kb : ℕ

-- `lang_labels` is the JSON object by its keys.
pub record ProblemPage : Type 0 where
  pub contest : Option (String × String)
  pub problem : Problem
  pub problem_label : Option String
  pub lang_labels : List (String × String)
  pub current_user : Option String
  pub cooldown_remaining_ms : Option ℤ
  pub default_language : Option String

pub record ProblemCell : Type 0 where
  pub label : String
  pub ac_time : Option String
  pub score : String
  pub has_result : Bool

pub record StandingRow : Type 0 where
  pub rank : ℕ
  pub username : String
  pub total_score : String
  pub elapsed_from_start : Option String
  pub problems : List ProblemCell

pub record ProblemHeader : Type 0 where
  pub label : String
  pub problem_id : String
  pub title : String
  pub score : ℕ

pub record StandingsPage : Type 0 where
  pub contest_id : String
  pub contest_title : String
  pub is_heuristic : Bool
  pub problem_headers : List ProblemHeader
  pub standings : List StandingRow
  pub current_page : ℕ
  pub total_pages : ℕ
  pub pagination : List ℕ
  pub current_user : Option String
