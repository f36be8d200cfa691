-- ===== src/SessionStore/Tests.antt =====
-- Sessions whose values are one text, and the theorems about the store at them.
use mikan_judge.Prelude.{◌≡◌, refl, String, none, some, List, [], ◌∷◌, map, arith}
use mikan_judge.Prelude.Outcome.{ok}
use mikan_judge.Db.{Database}
use mikan_judge.SessionStore.{Record, done, DataJson, load, from_unix_timestamp}
use mikan_judge.SessionStore.Contract.{Call, saves, loads, ideal, ideal_run}
use mikan_judge.SessionStore.Refines.{Holds, perform_all, perform_all_refines}
use mikan_judge.SessionStore.Live.{Live, load-Live}

abbrev json : DataJson String
json = record { to_string = λ v. ok v; from_str = λ s. ok s }

abbrev empty : Database
empty = record {
  users = [];
  submissions = [];
  contests = [];
  contest_problems = [];
  tower_sessions = [];
  ties = λ page id. id;
  outages = [];
}

abbrev session : Record String
session = record { id = "s"; values = "user 3"; expiry_date = 9_500_000_000 }

abbrev calls : List (Call String)
calls =
    saves session ∷ loads "s" 8_000_000_000 ∷ loads "s" 9_200_000_000 ∷ loads "s" 8_000_000_000 ∷ []

empty-Holds : Holds json empty (λ id. none)
empty-Holds = record { answers = refl; rows = λ id. tt }

-- A load behind the expiry, which is kept in whole seconds, removes the session.
answers :
    (ideal_run calls (λ id. none)).0
    ≡ none ∷ some (record session { expiry_date = 9_000_000_000 }) ∷ none ∷ none ∷ []
unfolding ideal_run ideal
answers = refl

perform_all_refines_example :
    ((perform_all json calls empty).0 ≡ map done (ideal_run calls (λ id. none)).0)
    × Holds json (perform_all json calls empty).1 (ideal_run calls (λ id. none)).1
perform_all_refines_example =
    perform_all_refines json (λ v. (v, refl, refl)) calls empty (λ id. none)
      (omega arith, (tt, (tt, (tt, tt)))) empty-Holds

abbrev stored : Database
stored = record empty {
  tower_sessions = (record { id = "s"; data_str = "user 3"; expiry_unix = 9 }) ∷ [];
}

load-Live_example : Live json "s" 8_000_000_000 (record session { expiry_date = 9_000_000_000 })
unfolding load from_unix_timestamp
load-Live_example =
    load-Live json "s" 8_000_000_000 stored (record session { expiry_date = 9_000_000_000 }) refl
