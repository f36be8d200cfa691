-- ===== src/Api/Auth.antt =====
-- The handlers of src/api/handlers.rs for accounts: registering, logging in and out, the settings,
-- changing the password and deleting the account.
pub mod Login
pub mod Account
mod Tests
use mikan_judge.Prelude.{
  ◌||◌, not, String, Bool, true, false, Option, none, some, List, [], ◌∷◌, ◌==◌, trim, format, ltb,
  utf8_len, is_some, if◌then◌else◌,
}
use mikan_judge.Prelude.Outcome.{Outcome, ok, err, panic, out_of_fuel}
use mikan_judge.Types.Records.{Uuid, User}
use mikan_judge.Db.Users.{
  find_by_username, find_by_id, insert, update_default_language, update_password, delete,
}
use mikan_judge.Api.{Response, redirect, form, failure, World, Handler, resolve, with_db}
use mikan_judge.Api.Sessions.{SessionValue, user, current_user_id}

-- The crate argon2: hashing under a fresh salt, reading a hash, and checking a password.
pub record Argon2 : Type 0 where
  pub hash : String → Outcome String
  pub parse : String → Option String
  pub verify : String → String → Bool

with_prefix : Outcome String → Outcome String
with_prefix (ok h) = ok h
with_prefix (err e) = err (format ("hash error: " ∷ e ∷ []))
with_prefix panic = panic
with_prefix out_of_fuel = out_of_fuel

module _ (argon2 : Argon2) where
  unfoldable pub hash_password : String → Outcome String
  unfolding with_prefix
  hash_password password = with_prefix (argon2.hash password)

  unfoldable pub verify_password : String → String → Bool
  verify_password password hash = elim (argon2.parse hash) [
    | none ↦ false
    | some parsed ↦ argon2.verify password parsed
  ]

pub record AuthForm : Type 0 where
  pub username : String
  pub password : String

-- `session.insert("user_id", id).await.map_err(…)?`
abbrev pub log_in : Uuid → Option (List (String × SessionValue)) → Handler
log_in id none w = (failure "session error", w)
log_in id (some entries) w =
    (redirect "/", record w { session = some (("user_id", user id) ∷ entries) })

-- `session.flush().await.map_err(…)?`: the entries are gone, here and in the store.
abbrev pub flush : String → Option (List (String × SessionValue)) → Handler
flush location none w = (failure "session error", w)
flush location (some entries) w = (redirect location, record w { session = some [] })

abbrev pub auth_error : String → String → Response
auth_error template message = form template none none (some message) false

-- The settings' page of a user.
abbrev pub settings : User → Option String → Option String → Bool → Response
settings u language error success = form "settings.html" (some u.username) language error success

abbrev pub name_of : AuthForm → String
name_of f = trim f.username

abbrev pub password_of : AuthForm → String
password_of f = trim f.password

module _ (argon2 : Argon2) (new_id : Uuid) (f : AuthForm) where
  unfoldable pub register_hashed : Outcome String → Handler
  register_hashed hashed =
      resolve failure hashed
        λ hash. with_db failure (insert new_id (name_of f) hash) λ u w. log_in u.id w.session w

  unfoldable pub register_fresh : Option User → Handler
  unfolding register_hashed
  register_fresh (some u) w = (auth_error "auth/register.html" "そのユーザ名はすでに使われています", w)
  register_fresh none w = register_hashed (hash_password argon2 (password_of f)) w

  unfoldable pub register : Handler
  unfolding register_fresh
  register w =
      if ltb (utf8_len (name_of f)) 3 || ltb 20 (utf8_len (name_of f))
      then (auth_error "auth/register.html" "ユーザ名は3〜20文字にしてください", w)
      else if ltb (utf8_len (password_of f)) 6
      then (auth_error "auth/register.html" "パスワードは6文字以上にしてください", w)
      else with_db failure (find_by_username (name_of f)) register_fresh w

module _ (argon2 : Argon2) (f : AuthForm) where
  unfoldable pub login_found : Option User → Handler
  login_found none w = (auth_error "auth/login.html" "ユーザ名またはパスワードが違います", w)
  login_found (some u) w =
      if not (verify_password argon2 (password_of f) u.password_hash)
      then (auth_error "auth/login.html" "ユーザ名またはパスワードが違います", w)
      else log_in u.id w.session w

  unfoldable pub login : Handler
  unfolding login_found
  login w = with_db failure (find_by_username (name_of f)) login_found w

unfoldable pub logout : Handler
logout w = flush "/login" w.session w

-- What the handlers of the settings begin with: the user who is logged in, read from the database.
module _ (next : Uuid → User → Handler) where
  abbrev pub with_found : Uuid → Option User → Handler
  with_found id none w = (failure "user not found", w)
  with_found id (some u) w = next id u w

  abbrev pub with_session : Option Uuid → Handler
  with_session none w = (redirect "/login", w)
  with_session (some id) w = with_db failure (find_by_id id) (with_found id) w

  abbrev pub with_user : Handler
  with_user w = with_session (current_user_id w.session) w

unfoldable pub settings_get : Handler
settings_get = with_user λ id u w. (settings u u.default_language none false, w)

abbrev pub non_empty : Option String → Option String
non_empty none = none
non_empty (some s) = if s == "" then none else some s

unfoldable pub settings_post : Option String → Handler
settings_post default_language = with_user λ id u.
    with_db failure (update_default_language id (non_empty default_language))
      λ _ w. (settings u (non_empty default_language) none true, w)

module _ (argon2 : Argon2) where
  unfoldable pub delete_user : String → Uuid → User → Handler
  delete_user pass id u w =
      if not (verify_password argon2 (trim pass) u.password_hash)
      then (settings u u.default_language (some "パスワードが違います") false, w)
      else with_db failure (delete id) (λ _ w'. flush "/" w'.session w') w

  unfoldable pub delete_account : String → Handler
  unfolding delete_user
  delete_account pass = with_user (delete_user pass)

  unfoldable pub change_user : String → String → Uuid → User → Handler
  change_user current new id u w =
      if not (verify_password argon2 (trim current) u.password_hash)
      then (settings u u.default_language (some "現在のパスワードが違います") false, w)
      else if ltb (utf8_len (trim new)) 6
      then (settings u u.default_language (some "新しいパスワードは6文字以上にしてください") false, w)
      else resolve failure (hash_password argon2 (trim new))
          (λ hash.
            with_db failure (update_password id hash)
              λ _ w'. (settings u u.default_language none true, w'))
          w

  unfoldable pub change_password : String → String → Handler
  unfolding change_user
  change_password current new = with_user (change_user current new)
