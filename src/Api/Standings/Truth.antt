-- ===== src/Api/Standings/Truth.antt =====
-- The rows of `contest_standings` of src/api/handlers.rs against the submissions in the database.
use mikan_judge.Prelude.{
  ℕ, ◌≡◌, refl, sym, ◌∙◌, inl, inr, String, Option, none, some, List, min, sort_by, filter_map,
  Option-cases, arith,
}
use mikan_judge.Types.Records.{Uuid, User}
use mikan_judge.Db.{Database, SubmissionRow}
use mikan_judge.Db.Users.{user_with}
use mikan_judge.Db.Lists.{Best, joined, group_by, group_leb}
use mikan_judge.Db.Lists.Groups.{combined, folded-group_by, folded-sort_by, sorted-few}
use mikan_judge.Db.Lists.Bests.{own_values, folded-joined}
use mikan_judge.Api.Standings.Names.{user_map-name}
use mikan_judge.Api.Standings.Rows.{UserData, result_in, user_map}
use mikan_judge.Api.Standings.Results.{data_of, looked_up, user_map-looked_up}

pub min_assoc : (a b c : ℕ) → min a (min b c) ≡ min (min a b) c
min_assoc a b c = omega arith

pub min_comm : (a b : ℕ) → min a b ≡ min b a
min_comm a b = omega arith

-- The rows that the two queries for the standings answer with.
abbrev pub grouped :
    {A : Type 0} → (A → A → A) → (SubmissionRow → Option A) → Database → List (Best A)
grouped f value db =
    sort_by group_leb (group_by f (filter_map (joined db.users value) db.submissions))

module _ {A : Type 0} (f : A → A → A) (assoc : (a b c : A) → f a (f b c) ≡ f (f a b) c)
    (comm : (a b : A) → f a b ≡ f b a) (value : SubmissionRow → Option A) (db : Database)
    (uid : Uuid) (u : User) (there : user_with uid db.users ≡ some u) where
  -- What the map holds for a user and a problem is the aggregate of the user's submissions to it.
  pub looked_up-combined :
      (pid : String)
      → looked_up uid pid (user_map (grouped f value db))
        ≡ combined f (own_values value uid pid db.submissions)
  looked_up-combined pid =
      let rows = filter_map (joined db.users value) db.submissions in
      user_map-looked_up uid pid f (grouped f value db) (sorted-few f uid pid rows)
      ∙ folded-sort_by f assoc comm uid pid (group_by f rows)
      ∙ folded-group_by f assoc comm uid pid rows
      ∙ folded-joined value uid pid f db.users u there db.submissions

  -- A user with a value for some problem has an entry, with the user's name and with the aggregates.
  pub user_map-entry :
      (pid : String) (x : A)
      → combined f (own_values value uid pid db.submissions) ≡ some x
      → (ud : UserData A) × (data_of uid (user_map (grouped f value db)) ≡ some ud)
        × (ud.username ≡ u.username)
        × ((id : String)
            → result_in id ud.results ≡ combined f (own_values value uid id db.submissions))
  user_map-entry pid x valued = elim (Option-cases (data_of uid (user_map (grouped f value db)))) [
    | inl absent ↦
        let missing : looked_up uid pid (user_map (grouped f value db)) ≡ none = rw absent refl in
        let answer = sym missing ∙ looked_up-combined pid ∙ valued in
        absurd (ground (arith, answer))
    | inr (ud, e) ↦
        let same : (id : String)
            → result_in id ud.results ≡ combined f (own_values value uid id db.submissions) =
          λ id.
            let held : looked_up uid id (user_map (grouped f value db)) ≡ result_in id ud.results =
              rw e refl in
            sym held ∙ looked_up-combined id in
        (ud, e, user_map-name value uid db.users u there f db.submissions e, same)
  ]
