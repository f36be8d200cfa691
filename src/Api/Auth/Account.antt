-- ===== src/Api/Auth/Account.antt =====
-- What logging in and the handlers of the settings (src/api/handlers.rs) change, for every schedule
-- of outages: nothing without the password.
pub mod Deleted
pub mod Changed
use mikan_judge.Prelude.{
  ◌≡◌, refl, ap, ◌⊎◌, inl, inr, String, true, false, not, Option, none, some, List, [], map,
  filter_by, eqb, eq_refl, trim, ltb, utf8_len, if◌then◌else◌,
}
use mikan_judge.Prelude.Outcome.{Outcome, ok, err, panic, out_of_fuel}
use mikan_judge.Types.Records.{Uuid, User}
use mikan_judge.Db.{Database}
use mikan_judge.Db.Outages.{with_outages, query-Queried}
use mikan_judge.Db.Users.{
  user_named, user_with, id_query, find_by_id, delete_query, delete, unlink, update_users,
  update_password,
}
use mikan_judge.Api.{Response, failure, World, Handler, with_db, resolve}
use mikan_judge.Api.Sessions.{user, current_user_id}
use mikan_judge.Api.Auth.{
  Argon2, hash_password, verify_password, AuthForm, name_of, password_of, flush, with_found,
  with_session, with_user, delete_user, delete_account, change_user, change_password,
}

-- Every table is as it was: the databases agree but for the schedule of outages.
abbrev pub SameTables : World → World → Type 0
SameTables w w' = with_outages [] w'.db ≡ with_outages [] w.db

module _ (argon2 : Argon2) (f : AuthForm) where
  -- The session names the user whose name and password the form holds.
  pub record LoggedIn (w w' : World) : Type 0 where
    pub account : User
    pub named : user_named (name_of f) w.db.users ≡ some account
    pub verified : verify_password argon2 (password_of f) account.password_hash ≡ true
    pub session : current_user_id w'.session ≡ some account.id

  abbrev pub LoginEnds : World → World → Type 0
  LoginEnds w w' = SameTables w w' × ((w'.session ≡ w.session) ⊎ LoggedIn w w')

module _ (next : Uuid → User → Handler) (w : World) where
  -- A handler of the settings stops with the tables as they were, or goes on for the user of the
  -- session.
  abbrev Guarded : Response × World → Type 0
  Guarded answer =
      SameTables w answer.1
      ⊎ ((id : Uuid) × (u : User) × (os : List (Option String)) × (current_user_id w.session
            ≡ some id)
          × (user_with id w.db.users ≡ some u)
          × (answer ≡ next id u (record w { db = with_outages os w.db })))

  found-Guarded :
      (id : Uuid) (os : List (Option String))
      → current_user_id w.session ≡ some id
      → (found : Option User) → user_with id w.db.users ≡ found
      → Guarded (with_found next id found (record w { db = with_outages os w.db }))
  found-Guarded id os e none k = inl (refl)
  found-Guarded id os e (some u) k = inr (id, u, os, e, k, refl)

  session-Guarded :
      (found : Option Uuid)
      → current_user_id w.session ≡ found
      → Guarded (with_session next found w)
  unfolding find_by_id
  session-Guarded none e = inl refl
  session-Guarded (some id) e =
      let (os, answer) = query-Queried (id_query id) w.db in
      elim answer [
        | inl (m, failed) ↦ rw failed (inl (refl))
        | inr done ↦ rw done (found-Guarded id os e (user_with id w.db.users) refl)
      ]

  pub with_user-Guarded : Guarded (with_user next w)
  with_user-Guarded = session-Guarded (current_user_id w.session) refl
