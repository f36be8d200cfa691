-- ===== src/Db/Lists.antt =====
-- db/submission.rs: the queries on many rows.
pub mod Groups
pub mod Bests
use mathlib.Core.Option
use mikan_judge.Prelude.{
  ℕ, ◌-◌, ◌*◌, String, Bool, true, false, ◌&&◌, ◌||◌, ◌==◌, Option, none, some, List, [], ◌∷◌, map,
  eqb, leb, ltb, min, and_then, length, take, drop, filter_by, filter_map, sort_by, text_leb,
  if◌then◌else◌,
}
use mikan_judge.Prelude.Int.{ℤ}
use mikan_judge.Prelude.Outcome.{ok}
use mikan_judge.Types.Contest.{DateTime}
use mikan_judge.Types.Records.{Uuid, F64, User}
use mikan_judge.Db.{Database, SubmissionRow, Db, query}
use mikan_judge.Db.Users.{user_with, is_by}

pub record SubmissionListRow : Type 0 where
  pub id : Uuid
  pub username : Option String
  pub problem_id : String
  pub language : String
  pub status : String
  pub time_used_ms : Option ℤ
  pub memory_used_kb : Option ℤ
  pub testcase_results : Option String
  pub score : Option F64

-- `LEFT JOIN users u ON s.user_id = u.id`
abbrev pub user_of : List User → Option Uuid → Option User
user_of users user_id = and_then user_id (λ uid. user_with uid users)

abbrev pub list_row : List User → SubmissionRow → SubmissionListRow
list_row users r = record {
  id = r.id;
  username = Option.map (λ u. u.username) (user_of users r.user_id);
  problem_id = r.problem_id;
  language = r.language;
  status = r.status;
  time_used_ms = r.time_used_ms;
  memory_used_kb = r.memory_used_kb;
  testcase_results = r.testcase_results;
  score = r.score;
}

abbrev pub newest_first : SubmissionRow → SubmissionRow → Bool
newest_first r s = leb s.created_at r.created_at

-- `s.contest_id = $1`, which is not true of NULL.
abbrev pub in_contest : String → SubmissionRow → Bool
in_contest contest_id r = elim r.contest_id [ none ↦ false | some cid ↦ cid == contest_id ]

abbrev pub by_user : String → Uuid → SubmissionRow → Bool
by_user contest_id user_id r = in_contest contest_id r && is_by user_id r.user_id

abbrev pub tied : (Uuid → ℕ) → SubmissionRow → SubmissionRow → Bool
tied ties r s = leb (ties r.id) (ties s.id)

-- `ORDER BY created_at DESC`: PostgreSQL may take rows of one time in any order, and in another one
-- for the query of another page.
abbrev pub newest : (page : ℕ) → (SubmissionRow → Bool) → Database → List SubmissionListRow
newest page p db =
    map (list_row db.users)
      (sort_by newest_first (sort_by (tied (db.ties page)) (filter_by p db.submissions)))

-- `LIMIT per_page OFFSET (page - 1) * per_page`
abbrev pub page_of_rows : ℕ → ℕ → List SubmissionListRow → List SubmissionListRow
page_of_rows page per_page rows = take per_page (drop ((page - 1) * per_page) rows)

unfoldable pub list_recent : ℕ → Db (List SubmissionListRow)
list_recent limit = query λ db. (ok (take limit (newest 1 (λ r. true) db)), db)

abbrev pub page_query : (SubmissionRow → Bool) → ℕ → ℕ → Db (List SubmissionListRow)
page_query p page per_page db = (ok (page_of_rows page per_page (newest page p db)), db)

abbrev pub count_query : (SubmissionRow → Bool) → Db ℕ
count_query p db = (ok (length (filter_by p db.submissions)), db)

unfoldable pub list_for_contest : String → ℕ → ℕ → Db (List SubmissionListRow)
list_for_contest contest_id page per_page = query (page_query (in_contest contest_id) page per_page)

unfoldable pub count_for_contest : String → Db ℕ
count_for_contest contest_id = query (count_query (in_contest contest_id))

unfoldable pub list_for_contest_by_user : String → Uuid → ℕ → ℕ → Db (List SubmissionListRow)
list_for_contest_by_user contest_id user_id page per_page =
    query (page_query (by_user contest_id user_id) page per_page)

unfoldable pub count_for_contest_by_user : String → Uuid → Db ℕ
count_for_contest_by_user contest_id user_id = query (count_query (by_user contest_id user_id))

-- One group of `GROUP BY s.user_id, u.username, s.problem_id` with its aggregate; the name hangs on
-- the user's id.
pub record Best {ℓ} (A : Type ℓ) : Type ℓ where
  pub user_id : Uuid
  pub username : String
  pub problem_id : String
  pub value : A

module _ {A : Type 0} where
  abbrev pub same_group : Uuid → String → Best A → Bool
  same_group user_id problem_id b = eqb b.user_id user_id && b.problem_id == problem_id

  -- One row goes to its group, or opens it.
  unfoldable pub add_to : (A → A → A) → Best A → List (Best A) → List (Best A)
  add_to f b [] = b ∷ []
  add_to f b (g ∷ gs) =
      let rest = add_to f b gs in
      if same_group b.user_id b.problem_id g
      then record g { value = f g.value b.value } ∷ gs
      else g ∷ rest

  unfoldable pub group_by : (A → A → A) → List (Best A) → List (Best A)
  unfolding add_to
  group_by f [] = []
  group_by f (b ∷ bs) = add_to f b (group_by f bs)

  -- `ORDER BY s.user_id, s.problem_id`
  abbrev pub group_leb : Best A → Best A → Bool
  group_leb a b =
      ltb a.user_id b.user_id || eqb a.user_id b.user_id && text_leb a.problem_id b.problem_id

  -- `JOIN users`, with the value of a row that the `WHERE` lets through.
  abbrev pub joined : List User → (SubmissionRow → Option A) → SubmissionRow → Option (Best A)
  joined users value r = and_then (user_of users r.user_id) λ u. and_then (value r) λ v.
      some (record { user_id = u.id; username = u.username; problem_id = r.problem_id; value = v })

  abbrev pub best_query : (A → A → A) → (SubmissionRow → Option A) → Db (List (Best A))
  best_query f value db =
      (ok (sort_by group_leb (group_by f (filter_map (joined db.users value) db.submissions))), db)

abbrev pub accepted_at : String → SubmissionRow → Option DateTime
accepted_at contest_id r =
    if in_contest contest_id r && r.status == "accepted" then some r.created_at else none

abbrev pub scored_value : String → SubmissionRow → Option F64
scored_value contest_id r =
    if in_contest contest_id r && r.status == "scored" then r.score else none

-- `value` is `first_ac_at`.
unfoldable pub first_acs_for_contest : String → Db (List (Best DateTime))
unfolding group_by
first_acs_for_contest contest_id = query (best_query min (accepted_at contest_id))

-- `value` is `best_score`; `greatest` is the server's MAX on two numbers.
unfoldable pub best_scores_for_contest :
    (greatest : F64 → F64 → F64) → String → Db (List (Best F64))
unfolding group_by
best_scores_for_contest greatest contest_id = query (best_query greatest (scored_value contest_id))
