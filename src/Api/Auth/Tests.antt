-- ===== src/Api/Auth/Tests.antt =====
-- A site with one account, and the theorems about accounts at it.
use mikan_judge.Prelude.{
  ◌≡◌, refl, eq_refl, ◌⊎◌, String, true, none, some, [], ◌∷◌, trim, utf8_len, ◌==◌,
}
use mikan_judge.Prelude.Outcome.{ok, ok_inj}
use mikan_judge.Types.Records.{User}
use mikan_judge.Db.Users.{find_by_username, insert}
use mikan_judge.Api.{World, redirect}
use mikan_judge.Api.Sessions.{user}
use mikan_judge.Api.Auth.{
  Argon2, hash_password, verify_password, AuthForm, register, login, change_password,
}
use mikan_judge.Api.Auth.Login.{register-login}
use mikan_judge.Api.Auth.Account.{SameTables}
use mikan_judge.Api.Auth.Account.Deleted.{Deleted}
use mikan_judge.Api.Auth.Account.Changed.{Changed, change_password-Changed}

-- A hash that is the password itself.
abbrev argon2 : Argon2
argon2 = record { hash = λ p. ok p; parse = λ h. some h; verify = λ p h. p == h }

abbrev ann : User
ann = record { id = 3; username = "ann"; password_hash = "secret"; default_language = none }

abbrev site : World
site = record {
  db = record {
    users = ann ∷ [];
    submissions = [];
    contests = [];
    contest_problems = [];
    tower_sessions = [];
    ties = λ page id. id;
    outages = [];
  };
  session = some (("user_id", user 3) ∷ []);
  queue = [];
  is_open = true;
}

abbrev form : AuthForm
form = record { username = " bob "; password = "hunter2" }

law : (p h : String) → hash_password argon2 p ≡ ok h → verify_password argon2 p h ≡ true
unfolding hash_password verify_password
law p h e = rw (← ok_inj e) (eq_refl p)

registered : (register argon2 4 form site).0 ≡ redirect "/"
unfolding register find_by_username insert hash_password trim utf8_len
registered = refl

register-login_example : login argon2 form (register argon2 4 form site).1 ≡ (
  redirect "/",
  record (register argon2 4 form site).1 {
    session = some (("user_id", user 4) ∷ ("user_id", user 4) ∷ ("user_id", user 3) ∷ []);
  },
)
unfolding register find_by_username insert hash_password trim utf8_len verify_password
register-login_example =
    register-login 4 form argon2 site (register argon2 4 form site).1
      (("user_id", user 4) ∷ ("user_id", user 3) ∷ []) law registered refl refl refl

change_password-Changed_example :
    SameTables site (change_password argon2 "secret" "hunter3" site).1
    ⊎ Changed argon2 "secret" "hunter3" site (change_password argon2 "secret" "hunter3" site).1
change_password-Changed_example = change_password-Changed argon2 "secret" "hunter3" site
