-- ===== src/Api/Auth/Login.antt =====
-- Registering and logging in (src/api/handlers.rs), for every schedule of outages.
use mikan_judge.Prelude.{
  ◌≡◌, refl, ap, ◌∙◌, ◌⊎◌, inl, inr, String, Bool, true, false, ◌||◌, ◌==◌, eq_refl, Option, none,
  some, List, [], ◌∷◌, ◌++◌, Bool-cases, arith, is_some, ltb, utf8_len, if◌then◌else◌,
}
use mikan_judge.Prelude.Outcome.{Outcome, ok, err, panic, out_of_fuel}
use mikan_judge.Types.Records.{Uuid, User}
use mikan_judge.Db.{Database}
use mikan_judge.Db.Outages.{with_outages, query-Queried, query-answers}
use mikan_judge.Db.Submission.{violation}
use mikan_judge.Db.Users.{
  user_named, user_with, new_user, insert_query, insert, named_query, find_by_username,
}
use mikan_judge.Api.{Response, redirect, failure, World, resolve, with_db}
use mikan_judge.Api.Sessions.{SessionValue, user}
use mikan_judge.Api.Auth.{
  Argon2, hash_password, verify_password, AuthForm, log_in, name_of, password_of, register,
  register_hashed, register_fresh, login_found, login,
}

module _ (name : String) (u : User) where
  -- A new user is found by a name that nobody had.
  named-append :
      (users : List User)
      → user_named name users ≡ none
      → (u.username == name) ≡ true
      → user_named name (users ++ u ∷ []) ≡ some u
  named-append [] e h = rw h refl
  named-append (v ∷ users) e h = elim (Bool-cases (v.username == name)) [
    | inl same ↦ absurd (ground (arith, same, e))
    | inr other ↦ ground (arith, other, e, named-append users)
  ]

module _ (new_id : Uuid) (f : AuthForm) where
  module _ (hash : String) (db : Database) where
    abbrev Inserts : Outcome User × Database → Type 0
    Inserts (r, db') =
        ((e : String) × (r ≡ err e))
        ⊎ ((r ≡ ok (new_user new_id (name_of f) hash))
            × (user_named (name_of f) db.users ≡ none)
            × (db'.users ≡ db.users ++ new_user new_id (name_of f) hash ∷ []))

    inserted :
        (found : Option User)
        → user_named (name_of f) db.users ≡ found
        → (b : Bool) (os : List (Option String))
        → Inserts (
            if is_some found || b then (err violation, with_outages os db) else (
              ok (new_user new_id (name_of f) hash),
              record (with_outages os db) {
                users = db.users ++ new_user new_id (name_of f) hash ∷ [];
              },
            ))
    inserted (some u) e b os = inl (violation, refl)
    inserted none e true os = inl (violation, refl)
    inserted none e false os = inr (refl, e, refl)

    insert-Inserts : Inserts (insert new_id (name_of f) hash db)
    unfolding insert
    insert-Inserts =
        let (os, answer) = query-Queried (insert_query new_id (name_of f) hash) db in
        elim answer [
          | inl (e, same) ↦ rw same (inl (e, refl))
          | inr same ↦ rw same (
              inserted (user_named (name_of f) db.users) refl (is_some (user_with new_id db.users))
                os)
        ]

  module _ (argon2 : Argon2) (w : World) where
    -- The user is new, and stands behind all others with the hash of the password.
    pub record Registered (w' : World) : Type 0 where
      pub hash : String
      pub hashed : hash_password argon2 (password_of f) ≡ ok hash
      pub free : user_named (name_of f) w.db.users ≡ none
      pub users : w'.db.users ≡ w.db.users ++ new_user new_id (name_of f) hash ∷ []

    abbrev Welcomes : Response × World → Type 0
    Welcomes answer = answer.0 ≡ redirect "/" → Registered answer.1

    log_in-users :
        (id : Uuid) (session : Option (List (String × SessionValue))) (v : World)
        → (log_in id session v).1.db.users ≡ v.db.users
    log_in-users id none v = refl
    log_in-users id (some es) v = refl

    insert-Welcomes :
        (hash : String)
        → hash_password argon2 (password_of f) ≡ ok hash
        → (answer : Outcome User × Database) → Inserts hash w.db answer
        → Welcomes
            (resolve failure answer.0 (λ u v. log_in u.id v.session v) (record w { db = answer.1 }))
    insert-Welcomes hash e (r, db') (inl (m, failed)) = rw failed (λ h. absurd cc)
    insert-Welcomes hash e (r, db') (inr (fine, free, users)) = rw fine (λ h. record {
      hash = hash;
      hashed = e;
      free = free;
      users = log_in-users new_id w.session (record w { db = db' }) ∙ users;
    })

    hashed-Welcomes :
        (o : Outcome String)
        → hash_password argon2 (password_of f) ≡ o
        → Welcomes (register_hashed argon2 new_id f o w)
    unfolding register_hashed
    hashed-Welcomes (ok hash) e h =
        insert-Welcomes hash e (insert new_id (name_of f) hash w.db) (insert-Inserts hash w.db) h
    hashed-Welcomes (err m) e h = cc
    hashed-Welcomes panic e h = cc
    hashed-Welcomes out_of_fuel e h = cc

    fresh-Welcomes : (found : Option User) → Welcomes (register_fresh argon2 new_id f found w)
    unfolding register_fresh
    fresh-Welcomes (some u) h = cc
    fresh-Welcomes none h = hashed-Welcomes (hash_password argon2 (password_of f)) refl h

  module _ (argon2 : Argon2) (w : World) where
    Registered-outages :
        (w' : World) (os : List (Option String))
        → Registered argon2 (record w { db = with_outages os w.db }) w'
        → Registered argon2 w w'
    Registered-outages w' os r = record {
      hash = r.hash;
      hashed = r.hashed;
      free = r.free;
      users = r.users;
    }

    looked_up-Welcomes :
        Welcomes argon2 w
          (with_db failure (find_by_username (name_of f)) (register_fresh argon2 new_id f) w)
    unfolding find_by_username
    looked_up-Welcomes =
        let (os, answer) = query-Queried (named_query (name_of f)) w.db in
        elim answer [
          | inl (e, same) ↦ rw same (λ h. absurd cc)
          | inr same ↦ rw same (λ h. Registered-outages _ os (
              fresh-Welcomes argon2 (record w { db = with_outages os w.db })
                (user_named (name_of f) w.db.users) h))
        ]

    -- A registration that ends at the start page has added the user with the hash of the password,
    -- under a name that nobody had.
    pub register-Registered :
        (register argon2 new_id f w).0 ≡ redirect "/"
        → Registered argon2 w (register argon2 new_id f w).1
    unfolding register
    register-Registered =
        elim (Bool-cases (ltb (utf8_len (name_of f)) 3 || ltb 20 (utf8_len (name_of f)))) [
          | inl bad ↦ rw bad (λ h. cc)
          | inr good ↦ rw good (elim (Bool-cases (ltb (utf8_len (password_of f)) 6)) [
            | inl short ↦ rw short (λ h. cc)
            | inr long ↦ rw long looked_up-Welcomes
          ])
        ]

  -- Who has registered can log in: with the same form, a session of the store and a server that
  -- answers, `login` stores the new user's id in the session, if the users are those that the
  -- registration left, and argon2 verifies a password against each hash that it has made of it.
  pub register-login :
      (argon2 : Argon2) (w v : World) (entries : List (String × SessionValue))
      → ((p h : String) → hash_password argon2 p ≡ ok h → verify_password argon2 p h ≡ true)
      → (register argon2 new_id f w).0 ≡ redirect "/"
      → v.db.users ≡ (register argon2 new_id f w).1.db.users
      → v.db.outages ≡ []
      → v.session ≡ some entries
      → login argon2 f v
        ≡ (redirect "/", record v { session = some (("user_id", user new_id) ∷ entries) })
  unfolding login login_found find_by_username
  register-login argon2 w v entries law done users out session =
      let r = register-Registered argon2 w done in
      let found =
        ap (user_named (name_of f)) (users ∙ r.users)
        ∙ named-append (name_of f) (new_user new_id (name_of f) r.hash) w.db.users r.free
            (eq_refl (name_of f)) in
      rw
        (
          query-answers (named_query (name_of f)) v.db out,
          found,
          law (password_of f) r.hash r.hashed,
          session,
        )
        refl
