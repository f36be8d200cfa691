-- ===== src/Db/Users.antt =====
-- db/user.rs: the queries on users. `username` is unique, and a user's submissions keep their rows
-- without the user when the user is deleted (migrations/001, 013).

use mikan_judge.Prelude.{
  String, Bool, false, Option, none, some, List, [], ◌∷◌, ◌++◌, map, not, ◌||◌, ◌==◌, eqb, find,
  filter_by, is_some, if◌then◌else◌,
}
use mikan_judge.Prelude.Outcome.{ok, err}
use mikan_judge.Types.Records.{Uuid, User}
use mikan_judge.Db.{SubmissionRow, Db, query}
use mikan_judge.Db.Submission.{violation}

abbrev pub user_named : String → List User → Option User
user_named name users = find (λ u. u.username == name) users

abbrev pub user_with : Uuid → List User → Option User
user_with id users = find (λ u. eqb u.id id) users

abbrev pub new_user : Uuid → String → String → User
new_user id name hash = record {
  id = id;
  username = name;
  password_hash = hash;
  default_language = none;
}

-- `id` is what the server's `gen_random_uuid()` returns.
abbrev pub insert_query : Uuid → String → String → Db User
insert_query id name hash db =
    if is_some (user_named name db.users) || is_some (user_with id db.users)
    then (err violation, db)
    else (ok (new_user id name hash), record db { users = db.users ++ new_user id name hash ∷ [] })

unfoldable pub insert : Uuid → String → String → Db User
insert id name hash = query (insert_query id name hash)

abbrev pub named_query : String → Db (Option User)
named_query name db = (ok (user_named name db.users), db)

unfoldable pub find_by_username : String → Db (Option User)
find_by_username name = query (named_query name)

abbrev pub id_query : Uuid → Db (Option User)
id_query id db = (ok (user_with id db.users), db)

unfoldable pub find_by_id : Uuid → Db (Option User)
find_by_id id = query (id_query id)

abbrev pub update_users : Uuid → (User → User) → Db (Unit {0})
update_users id f db =
    (ok tt, record db { users = map (λ u. if eqb u.id id then f u else u) db.users })

unfoldable pub update_default_language : Uuid → Option String → Db (Unit {0})
update_default_language id language =
    query (update_users id (λ u. record u { default_language = language }))

unfoldable pub update_password : Uuid → String → Db (Unit {0})
update_password id hash = query (update_users id (λ u. record u { password_hash = hash }))

abbrev pub is_by : Uuid → Option Uuid → Bool
is_by id none = false
is_by id (some uid) = eqb uid id

-- `ON DELETE SET NULL`
abbrev pub unlink : Uuid → SubmissionRow → SubmissionRow
unlink id r = if is_by id r.user_id then record r { user_id = none } else r

abbrev pub delete_query : Uuid → Db (Unit {0})
delete_query id db = (
  ok tt,
  record db {
    users = filter_by (λ u. not (eqb u.id id)) db.users;
    submissions = map (unlink id) db.submissions;
  },
)

unfoldable pub delete : Uuid → Db (Unit {0})
delete id = query (delete_query id)
