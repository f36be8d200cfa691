-- ===== src/Api/Auth/Account/Deleted.antt =====
-- What `delete_account` of src/api/handlers.rs does to the tables.
use mikan_judge.Prelude.{◌≡◌, String, true, not, Option, some, List, [], map, filter_by, eqb, trim}
use mikan_judge.Types.Records.{Uuid, User}
use mikan_judge.Db.Outages.{with_outages}
use mikan_judge.Db.Users.{user_with, unlink}
use mikan_judge.Api.{World}
use mikan_judge.Api.Sessions.{current_user_id}
use mikan_judge.Api.Auth.{Argon2, verify_password}

module _ (argon2 : Argon2) (pass : String) where
  -- The account is gone, and its submissions are no one's.
  pub record Deleted (w w' : World) : Type 0 where
    pub id : Uuid
    pub account : User
    pub logged_in : current_user_id w.session ≡ some id
    pub found : user_with id w.db.users ≡ some account
    pub verified : verify_password argon2 (trim pass) account.password_hash ≡ true
    pub tables : with_outages [] w'.db ≡ record w.db {
      users = filter_by (λ u. not (eqb u.id id)) w.db.users;
      submissions = map (unlink id) w.db.submissions;
      outages = [];
    }

  module _ (w : World) (id : Uuid) (u : User) (logged_in : current_user_id w.session ≡ some id)
      (found : user_with id w.db.users ≡ some u) (os : List (Option String)) where
    abbrev here : World
    here = record w { db = with_outages os w.db }
