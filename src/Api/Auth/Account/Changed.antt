-- ===== src/Api/Auth/Account/Changed.antt =====
-- What `change_password` of src/api/handlers.rs does to the tables.
use mikan_judge.Prelude.{
  ◌≡◌, refl, ap, ◌⊎◌, inl, inr, String, true, false, Option, some, List, [], map, eqb, Bool-cases,
  trim, ltb, utf8_len, if◌then◌else◌,
}
use mikan_judge.Prelude.Outcome.{Outcome, ok, err, panic, out_of_fuel}
use mikan_judge.Types.Records.{Uuid, User}
use mikan_judge.Db.Outages.{with_outages, query-Queried}
use mikan_judge.Db.Users.{user_with, update_users, update_password}
use mikan_judge.Api.{Response, failure, World, Handler, with_db, resolve}
use mikan_judge.Api.Sessions.{current_user_id}
use mikan_judge.Api.Auth.{Argon2, hash_password, verify_password, change_user, change_password}
use mikan_judge.Api.Auth.Account.{SameTables, with_user-Guarded}

module _ (argon2 : Argon2) (current new : String) where
  -- The account has the hash of the new password, and every other user stays.
  pub record Changed (w w' : World) : Type 0 where
    pub id : Uuid
    pub account : User
    pub hash : String
    pub logged_in : current_user_id w.session ≡ some id
    pub found : user_with id w.db.users ≡ some account
    pub verified : verify_password argon2 (trim current) account.password_hash ≡ true
    pub long : ltb (utf8_len (trim new)) 6 ≡ false
    pub hashed : hash_password argon2 (trim new) ≡ ok hash
    pub tables : with_outages [] w'.db ≡ record w.db {
      users = map (λ u. if eqb u.id id then record u { password_hash = hash } else u) w.db.users;
      outages = [];
    }

  module _ (w : World) (id : Uuid) (u : User) (logged_in : current_user_id w.session ≡ some id)
      (found : user_with id w.db.users ≡ some u) (os : List (Option String))
      (verified : verify_password argon2 (trim current) u.password_hash ≡ true)
      (long : ltb (utf8_len (trim new)) 6 ≡ false) (next : Unit {0} → Handler)
      (tables : (v : World) → (next tt v).1.db ≡ v.db) where
    abbrev Ends : Response × World → Type 0
    Ends answer = SameTables w answer.1 ⊎ Changed w answer.1

    abbrev start : World
    start = record w { db = with_outages os w.db }

    hashed-Changed :
        (o : Outcome String)
        → hash_password argon2 (trim new) ≡ o
        → Ends (resolve failure o (λ hash. with_db failure (update_password id hash) next) start)
    unfolding update_password
    hashed-Changed (ok hash) e =
        let set = update_users id (λ u. record u { password_hash = hash }) in
        let (os', answer) = query-Queried set start.db in
        elim answer [
          | inl (m, failed) ↦ rw failed (inl (refl))
          | inr done ↦
              let kept = tables (record start { db = (set (with_outages os' start.db)).1 }) in
              rw done (
                inr (record {
                  id = id;
                  account = u;
                  hash = hash;
                  logged_in = logged_in;
                  found = found;
                  verified = verified;
                  long = long;
                  hashed = e;
                  tables = ap (with_outages []) kept;
                }))
        ]
    hashed-Changed (err m) e = inl (refl)
    hashed-Changed panic e = inl (refl)
    hashed-Changed out_of_fuel e = inl (refl)

  user-Changed :
      (w : World) (id : Uuid) (u : User)
      → current_user_id w.session ≡ some id
      → user_with id w.db.users ≡ some u
      → (os : List (Option String))
      → SameTables w
          (change_user argon2 current new id u (record w { db = with_outages os w.db })).1
        ⊎ Changed w (change_user argon2 current new id u (record w { db = with_outages os w.db })).1
  unfolding change_user
  user-Changed w id u e k os =
      elim (Bool-cases (verify_password argon2 (trim current) u.password_hash)) [
        | inr wrong ↦ rw wrong (inl (refl))
        | inl right ↦ rw right (elim (Bool-cases (ltb (utf8_len (trim new)) 6)) [
          | inl short ↦ rw short (inl (refl))
          | inr long ↦ rw long (
              hashed-Changed w id u e k os right long _ (λ v. refl)
                (hash_password argon2 (trim new)) refl)
        ])
      ]

  -- A request to change the password leaves every table as it was, or it came from a session of
  -- the account with the account's password: then the account has the hash of the new password, of
  -- at least six bytes, and nothing else in any table is changed.
  pub change_password-Changed :
      (w : World)
      → SameTables w (change_password argon2 current new w).1
        ⊎ Changed w (change_password argon2 current new w).1
  unfolding change_password
  change_password-Changed w = elim (with_user-Guarded (change_user argon2 current new) w) [
    | inl stopped ↦ inl stopped
    | inr (id, u, os, e, k, went) ↦ rw went (user-Changed w id u e k os)
  ]
