-- ===== src/SessionStore/Live.antt =====
-- What `load` of src/session_store.rs returns, for every schedule of outages.
use mikan_judge.Prelude.{
  ℕ, ◌≤◌, ◌≡◌, refl, String, false, Option, none, some, ltb, Bool-cases, inl, inr, arith,
}
use mikan_judge.Prelude.Outcome.{Outcome, ok, err, panic, out_of_fuel}
use mikan_judge.Types.Contest.{DateTime}
use mikan_judge.Db.{Database, SessionRow}
use mikan_judge.Db.Outages.{with_outages, query-Queried}
use mikan_judge.SessionStore.{
  SessionId, Record, StoreResult, done, decode, DataJson, map_err, chain, row_of,
  from_unix_timestamp, expired, dated, loaded, row_query, load,
}

not_before : (a b : ℕ) → ltb a b ≡ false → b ≤ a
not_before a b h = ground arith

module _ {Data : Type 0} (json : DataJson Data) (id : SessionId) (now : DateTime) where
  -- A session that is returned has the id that was asked for, and has not expired.
  pub record Live (r : Record Data) : Type 0 where
    pub same_id : r.id ≡ id
    pub live : now ≤ r.expiry_date

  abbrev Answers : StoreResult (Option (Record Data)) × Database → Type 0
  Answers (answer, db) = (r : Record Data) → answer ≡ done (some r) → Live r

  done_inj : {r s : Record Data} → done (some r) ≡ done (some s) → r ≡ s
  done_inj e = cc

  decoded-Answers :
      (expiry_date : DateTime) (text : String) (db : Database)
      → now ≤ expiry_date
      → (o : Outcome Data)
      → Answers (
          chain
            (map_err decode o)
            (λ values db'.
              (done (some (record { id = id; values = values; expiry_date = expiry_date })), db'))
            db)
  decoded-Answers expiry_date text db h (ok values) r e =
      rw (← done_inj e) (record { same_id = refl; live = h })
  decoded-Answers expiry_date text db h (err m) r e = absurd cc
  decoded-Answers expiry_date text db h panic r e = absurd cc
  decoded-Answers expiry_date text db h out_of_fuel r e = absurd cc

  dated-Answers :
      (text : String) (db : Database) (o : Outcome DateTime)
      → Answers (chain (map_err decode o) (dated json id now text) db)
  unfolding expired
  dated-Answers text db (ok expiry_date) = elim (Bool-cases (ltb expiry_date now)) [
    | inl late ↦ rw late (λ r e. absurd cc)
    | inr live ↦ rw live (
        decoded-Answers expiry_date text db (omega (arith, not_before expiry_date now live))
          (json.from_str text))
  ]
  dated-Answers text db (err m) = λ r e. absurd cc
  dated-Answers text db panic = λ r e. absurd cc
  dated-Answers text db out_of_fuel = λ r e. absurd cc

  loaded-Answers : (o : Option SessionRow) (db : Database) → Answers (loaded json id now o db)
  loaded-Answers none db = λ r e. absurd cc
  loaded-Answers (some row) db = dated-Answers row.data_str db (from_unix_timestamp row.expiry_unix)

  -- Whatever the server and the rows hold, a session that `load` returns has the id that was asked
  -- for and has not expired.
  pub load-Live :
      (db : Database) (r : Record Data) → (load json id now db).0 ≡ done (some r) → Live r
  unfolding load
  load-Live db =
      let (os, answer) = query-Queried (row_query id) db in
      elim answer [
        | inl (m, down) ↦ rw down (λ r e. absurd cc)
        | inr up ↦ rw up (loaded-Answers (row_of id db.tower_sessions) (with_outages os db))
      ]
