-- ===== src/Site/Calm.antt =====
-- The handlers for accounts in src/api/handlers.rs send no job and neither add nor remove a submission.
use mikan_judge.Prelude.{
  ◌≡◌, refl, ◌∙◌, inl, inr, String, Bool, true, false, ◌||◌, Option, none, some, List, Bool-cases,
  is_some, trim, ltb, utf8_len, if◌then◌else◌,
}
use mikan_judge.Prelude.Outcome.{Outcome, ok, err, panic, out_of_fuel}
use mikan_judge.Types.Records.{Uuid, User}
use mikan_judge.Db.{Db}
use mikan_judge.Db.Submission.Numbers.{number, Keeps, query-Keeps, unlink-Keeps}
use mikan_judge.Db.Users
use mikan_judge.Db.Users.{
  user_named, user_with, named_query, id_query, insert_query, update_users, delete_query,
  find_by_username, find_by_id, update_default_language, update_password,
}
use mikan_judge.Api.{Response, World, Handler, resolve, with_db}
use mikan_judge.Api.Sessions.{SessionValue, current_user_id}
use mikan_judge.Api.Auth.{
  Argon2, AuthForm, name_of, password_of, hash_password, verify_password, log_in, flush,
  register_hashed, register_fresh, register, login_found, login, logout, with_found, with_session,
  with_user, settings_post, delete_user, delete_account, change_user, change_password,
}

pub record Calm (w w' : World) : Type 0 where
  pub queue : w'.queue ≡ w.queue
  pub rows : (id : Uuid) → number id w'.db.submissions ≡ number id w.db.submissions

abbrev pub IsCalm : Handler → Type 0
IsCalm h = (w w' : World) → Calm w w' → Calm w (h w').1

abbrev KeepsAll : {A : Type 0} → Db A → Type 0
KeepsAll q = (id : Uuid) → Keeps id q

module _ {A : Type 0} (on_error : String → Response) where
  resolve-IsCalm :
      (o : Outcome A) (k : A → Handler) → ((a : A) → IsCalm (k a)) → IsCalm (resolve on_error o k)
  resolve-IsCalm (ok a) k h = h a
  resolve-IsCalm (err e) k h = λ w w' c. c
  resolve-IsCalm panic k h = λ w w' c. c
  resolve-IsCalm out_of_fuel k h = λ w w' c. c

  with_db-IsCalm :
      (q : Db A) (k : A → Handler)
      → KeepsAll q
      → ((a : A) → IsCalm (k a))
      → IsCalm (with_db on_error q k)
  with_db-IsCalm q k keeps h w w' c =
      resolve-IsCalm (q w'.db).0 k h w (record w' { db = (q w'.db).1 })
        (record { queue = c.queue; rows = λ id. keeps id w'.db ∙ c.rows id })

flush-IsCalm :
    (location : String) (session : Option (List (String × SessionValue)))
    → IsCalm (flush location session)
flush-IsCalm location none w w' c = c
flush-IsCalm location (some es) w w' c = record { queue = c.queue; rows = c.rows }

log_in-IsCalm :
    (id : Uuid) (session : Option (List (String × SessionValue))) → IsCalm (log_in id session)
log_in-IsCalm id none w w' c = c
log_in-IsCalm id (some es) w w' c = record { queue = c.queue; rows = c.rows }

either-Calm :
    (w : World) (b : Bool) (x y : Response × World)
    → Calm w x.1
    → Calm w y.1
    → Calm w (if b then x else y).1
either-Calm w true x y cx cy = cx
either-Calm w false x y cx cy = cy

named-KeepsAll : (name : String) → KeepsAll (find_by_username name)
unfolding find_by_username
named-KeepsAll name id = query-Keeps id (named_query name) (λ db. refl)

found-KeepsAll : (uid : Uuid) → KeepsAll (find_by_id uid)
unfolding find_by_id
found-KeepsAll uid id = query-Keeps id (id_query uid) (λ db. refl)

insert-KeepsAll : (uid : Uuid) (name hash : String) → KeepsAll (Users.insert uid name hash)
unfolding Users.insert
insert-KeepsAll uid name hash id = query-Keeps id (insert_query uid name hash) λ db.
    elim (Bool-cases (is_some (user_named name db.users) || is_some (user_with uid db.users))) [
      | inl taken ↦ rw taken refl
      | inr free ↦ rw free refl
    ]

module _ (next : Uuid → User → Handler) (h : (id : Uuid) (u : User) → IsCalm (next id u)) where
  with_found-IsCalm : (id : Uuid) (found : Option User) → IsCalm (with_found next id found)
  with_found-IsCalm id none w w' c = c
  with_found-IsCalm id (some u) w w' c = h id u w w' c

  with_session-IsCalm : (user : Option Uuid) → IsCalm (with_session next user)
  with_session-IsCalm none w w' c = c
  with_session-IsCalm (some id) w w' c =
      with_db-IsCalm _ (find_by_id id) _ (found-KeepsAll id) (with_found-IsCalm id) w w' c

  with_user-IsCalm : IsCalm (with_user next)
  with_user-IsCalm w w' c = with_session-IsCalm (current_user_id w'.session) w w' c

pub logout-IsCalm : IsCalm logout
unfolding logout
logout-IsCalm w w' c = flush-IsCalm "/login" w'.session w w' c

pub settings_post-IsCalm : (language : Option String) → IsCalm (settings_post language)
unfolding settings_post update_default_language
settings_post-IsCalm language = with_user-IsCalm _ λ id u.
    with_db-IsCalm _ (update_default_language id _) _
      (λ j. query-Keeps j (update_users id _) (λ db. refl)) (λ _ w w' c. c)

module _ (argon2 : Argon2) where
  found-IsCalm : (f : AuthForm) (found : Option User) → IsCalm (login_found argon2 f found)
  unfolding login_found
  found-IsCalm f none w w' c = c
  found-IsCalm f (some u) w w' c = either-Calm w _ _ _ c (log_in-IsCalm u.id w'.session w w' c)

  pub login-IsCalm : (f : AuthForm) → IsCalm (login argon2 f)
  unfolding login
  login-IsCalm f =
      with_db-IsCalm _ (find_by_username (name_of f)) _ (named-KeepsAll (name_of f))
        (found-IsCalm f)

  fresh-IsCalm :
      (new_id : Uuid) (f : AuthForm) (found : Option User)
      → IsCalm (register_fresh argon2 new_id f found)
  unfolding register_fresh register_hashed
  fresh-IsCalm new_id f (some u) w w' c = c
  fresh-IsCalm new_id f none w w' c =
      resolve-IsCalm _ (hash_password argon2 (password_of f)) _
        (λ hash.
          with_db-IsCalm _ (Users.insert new_id (name_of f) hash) _
            (insert-KeepsAll new_id (name_of f) hash)
            (λ u v v' d. log_in-IsCalm u.id v'.session v v' d))
        w w' c

  pub register-IsCalm : (new_id : Uuid) (f : AuthForm) → IsCalm (register argon2 new_id f)
  unfolding register
  register-IsCalm new_id f w w' c =
      elim (Bool-cases (ltb (utf8_len (name_of f)) 3 || ltb 20 (utf8_len (name_of f)))) [
        | inl odd ↦ rw odd c
        | inr fitting ↦ rw fitting (elim (Bool-cases (ltb (utf8_len (password_of f)) 6)) [
          | inl short ↦ rw short c
          | inr long ↦ rw long (
              with_db-IsCalm _ (find_by_username (name_of f)) _ (named-KeepsAll (name_of f))
                (fresh-IsCalm new_id f) w w' c)
        ])
      ]

  delete_user-IsCalm :
      (pass : String) (id : Uuid) (u : User) → IsCalm (delete_user argon2 pass id u)
  unfolding delete_user Users.delete
  delete_user-IsCalm pass id u w w' c = either-Calm w _ _ _ c (
      with_db-IsCalm _ (Users.delete id) _
        (λ j. query-Keeps j (delete_query id) (λ db. unlink-Keeps j id db.submissions))
        (λ _ v v' d. flush-IsCalm "/" v'.session v v' d) w w' c)

  pub delete_account-IsCalm : (pass : String) → IsCalm (delete_account argon2 pass)
  unfolding delete_account
  delete_account-IsCalm pass = with_user-IsCalm (delete_user argon2 pass) (delete_user-IsCalm pass)

  change_user-IsCalm :
      (current new : String) (id : Uuid) (u : User) → IsCalm (change_user argon2 current new id u)
  unfolding change_user update_password
  change_user-IsCalm current new id u w w' c =
      elim (Bool-cases (verify_password argon2 (trim current) u.password_hash)) [
        | inr wrong ↦ rw wrong c
        | inl right ↦ rw right (elim (Bool-cases (ltb (utf8_len (trim new)) 6)) [
          | inl short ↦ rw short c
          | inr long ↦ rw long (
              resolve-IsCalm _ (hash_password argon2 (trim new)) _
                (λ hash.
                  with_db-IsCalm _ (update_password id hash) _
                    (λ j. query-Keeps j (update_users id _) (λ db. refl)) (λ _ v v' d. d))
                w w' c)
        ])
      ]

  pub change_password-IsCalm : (current new : String) → IsCalm (change_password argon2 current new)
  unfolding change_password
  change_password-IsCalm current new =
      with_user-IsCalm (change_user argon2 current new) (change_user-IsCalm current new)
