-- ===== src/Db/Outages.antt =====
-- A query of src/db/ under a schedule of outages: it fails, or it runs on the tables as they are.
use mikan_judge.Prelude.{◌≡◌, refl, ◌⊎◌, inl, inr, String, Option, none, some, List, [], ◌∷◌}
use mikan_judge.Prelude.Outcome.{Outcome, err}
use mikan_judge.Db.{Database, Db, attempt, query}

-- The database with another schedule.
abbrev pub with_outages : List (Option String) → Database → Database
with_outages os db = record db { outages = os }

module _ {A : Type 0} (q : Db A) where
  abbrev pub Queried : Outcome A × Database → Database → Type 0
  Queried answer db =
      (rest : List (Option String)) × (((e : String) × (answer ≡ (err e, with_outages rest db)))
        ⊎ (answer ≡ q (with_outages rest db)))

  attempt-Queried : (os : List (Option String)) (db : Database) → Queried (attempt os q db) db
  attempt-Queried [] db = (db.outages, inr refl)
  attempt-Queried (none ∷ os) db = (os, inr refl)
  attempt-Queried (some message ∷ os) db = (os, inl (message, refl))

  pub query-Queried : (db : Database) → Queried (query q db) db
  query-Queried db = attempt-Queried db.outages db

  attempt-answers : (os : List (Option String)) (db : Database) → os ≡ [] → attempt os q db ≡ q db
  attempt-answers [] db e = refl
  attempt-answers (o ∷ os) db e = cc

  -- A server that answers every query runs the query.
  pub query-answers : (db : Database) → db.outages ≡ [] → query q db ≡ q db
  query-answers db e = attempt-answers db.outages db e
