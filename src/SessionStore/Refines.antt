-- ===== src/SessionStore/Refines.antt =====
-- The store of src/session_store.rs keeps its contract over every sequence of calls.
use mikan_judge.Prelude.{
  ℕ, ◌*◌, ◌≤◌, ◌≡◌, refl, String, true, false, Option, none, some, List, [], ◌∷◌, map, ◌==◌, eq_iff,
  leb, ltb, Bool-cases, inl, inr, arith,
}
use mikan_judge.Prelude.Outcome.{ok}
use mikan_judge.Types.Contest.{DateTime}
use mikan_judge.Db.{Database, SessionRow}
use mikan_judge.Db.Outages.{query-answers}
use mikan_judge.SessionStore.{
  SessionId, Record, StoreResult, done, Store, DataJson, chain, row_of, upsert, nanos,
  unix_timestamp, from_unix_timestamp, expired, loaded, save_query, row_query, delete_query, save,
  load, delete,
}
use mikan_judge.SessionStore.Rows.{
  row_of-upsert, row_of-upsert_ne, row_of-without, row_of-without_ne, without,
}
use mikan_judge.SessionStore.Contract.{
  Call, saves, deletes, loads, last_second, Sessions, put, found, ideal, ideal_run,
}

le→leb : (a b : ℕ) → a ≤ b → leb a b ≡ true
le→leb a b h = ground arith

module _ {Data : Type 0} (json : DataJson Data) where
  abbrev no_answer : StoreResult (Unit {0}) → Store (Option (Record Data))
  no_answer r db = chain r (λ _ db'. (done none, db')) db

  -- One call of the store.
  unfoldable pub perform : Call Data → Store (Option (Record Data))
  perform (saves r) db = let (answer, db') = save json r db in no_answer answer db'
  perform (deletes id) db = let (answer, db') = delete id db in no_answer answer db'
  perform (loads id now) db = load json id now db

  unfoldable pub perform_all :
      List (Call Data) → Database → List (StoreResult (Option (Record Data))) × Database
  unfolding perform
  perform_all [] db = ([], db)
  perform_all (call ∷ calls) db =
      let (answer, db') = perform call db in
      let (answers, db'') = perform_all calls db' in (answer ∷ answers, db'')

  abbrev Keeps : Option SessionRow → Option (Data × ℕ) → Type 0
  Keeps none none = Unit
  Keeps none (some e) = ⊥
  Keeps (some r) none = ⊥
  Keeps (some r) (some (values, second)) =
      (json.from_str r.data_str ≡ ok values) × (r.expiry_unix ≡ second) × (second ≤ last_second)

  -- The table holds the sessions, and the server answers every query.
  pub record Holds (db : Database) (f : Sessions Data) : Type 0 where
    pub answers : db.outages ≡ []
    pub rows : (id : SessionId) → Keeps (row_of id db.tower_sessions) (f id)

  -- serde_json writes the values of a session, and reads what it has written.
  abbrev pub ReadsBack : Type 0
  ReadsBack =
      (values : Data)
      → (text : String) × (json.to_string values ≡ ok text) × (json.from_str text ≡ ok values)

  -- An expiry lies within the years that `OffsetDateTime` knows.
  abbrev pub InRange : Call Data → Type 0
  InRange (saves r) = unix_timestamp r.expiry_date ≤ last_second
  InRange _ = Unit

  abbrev pub AllInRange : List (Call Data) → Type 0
  AllInRange [] = Unit
  AllInRange (call ∷ calls) = InRange call × AllInRange calls

  -- Setting a row and setting the function keep the two alike.
  Keeps-put :
      (rows rows' : List SessionRow) (f : Sessions Data) (id : SessionId) (kept : Option (Data × ℕ))
      → ((q : SessionId) → Keeps (row_of q rows) (f q))
      → Keeps (row_of id rows') kept
      → ((q : SessionId) → (id == q) ≡ false → row_of q rows' ≡ row_of q rows)
      → (q : SessionId) → Keeps (row_of q rows') (put id kept f q)
  Keeps-put rows rows' f id kept h here others q = elim (Bool-cases (id == q)) [
    | inl same ↦ let e = (eq_iff id q).0 same in rw (same, ← e) here
    | inr other ↦ rw (other, others q other) (h q)
  ]

  module _ (db : Database) (f : Sessions Data) (h : Holds db f) where
    saves-refines :
        ReadsBack
        → (r : Record Data) → InRange (saves r)
        → ((perform (saves r) db).0 ≡ done none)
          × Holds (perform (saves r) db).1 (ideal (saves r) f).1
    unfolding perform save ideal
    saves-refines law r within =
        let (text, written, read) = law r.values in
        rw (written, query-answers (save_query _) db h.answers)
          (
            refl,
            record {
              answers = h.answers;
              rows =
                  let new : SessionRow = record {
                    id = r.id;
                    data_str = text;
                    expiry_unix = unix_timestamp r.expiry_date;
                  } in
                  Keeps-put db.tower_sessions (upsert new db.tower_sessions) f r.id _ h.rows
                    (rw (row_of-upsert new db.tower_sessions) (read, refl, within))
                    (λ q o. row_of-upsert_ne new q db.tower_sessions o);
            },
          )

    without-Holds :
        (id : SessionId)
        → Holds (record db { tower_sessions = without id db.tower_sessions }) (put id none f)
    without-Holds id = record {
      answers = h.answers;
      rows =
          Keeps-put db.tower_sessions (without id db.tower_sessions) f id none h.rows
            (rw (row_of-without id db.tower_sessions) tt)
            (λ q o. row_of-without_ne id q db.tower_sessions o);
    }

    delete-Holds : (id : SessionId) → Holds (delete id db).1 (put id none f)
    unfolding delete
    delete-Holds id = rw (query-answers (delete_query id) db h.answers) (without-Holds id)

    deletes-refines :
        (id : SessionId)
        → ((perform (deletes id) db).0 ≡ done none)
          × Holds (perform (deletes id) db).1 (ideal (deletes id) f).1
    unfolding perform delete ideal
    deletes-refines id = rw (query-answers (delete_query id) db h.answers) (refl, without-Holds id)

    module _ (id : SessionId) (now : DateTime) where
      loaded-refines :
          (o : Option SessionRow) (e : Option (Data × ℕ))
          → Keeps o e
          → ((loaded json id now o db).0 ≡ done (found id now f e).0)
            × Holds (loaded json id now o db).1 (found id now f e).1
      unfolding from_unix_timestamp expired
      loaded-refines none none k = (refl, h)
      loaded-refines none (some e) k = absurd k
      loaded-refines (some r) none k = absurd k
      loaded-refines (some r) (some (values, second)) (read, same, within) =
          rw (same, le→leb second last_second within)
            (elim (Bool-cases (ltb (second * nanos) now)) [
              | inl late ↦ rw late (refl, delete-Holds id)
              | inr live ↦ rw (live, read) (refl, h)
            ])

    loads-refines :
        (id : SessionId) (now : DateTime)
        → ((perform (loads id now) db).0 ≡ done (ideal (loads id now) f).0)
          × Holds (perform (loads id now) db).1 (ideal (loads id now) f).1
    unfolding perform load ideal
    loads-refines id now =
        rw (query-answers (row_query id) db h.answers)
          (loaded-refines id now (row_of id db.tower_sessions) (f id) (h.rows id))

  perform-refines :
      ReadsBack
      → (call : Call Data) (db : Database) (f : Sessions Data) → InRange call
      → Holds db f
      → ((perform call db).0 ≡ done (ideal call f).0) × Holds (perform call db).1 (ideal call f).1
  unfolding ideal
  perform-refines law (saves r) db f within h = saves-refines db f h law r within
  perform-refines law (deletes id) db f within h = deletes-refines db f h id
  perform-refines law (loads id now) db f within h = loads-refines db f h id now

  -- While the server answers, every sequence of saves, deletions and loads answers as a function from
  -- ids to values does whose entries end with the second of their expiry, if serde_json reads what it
  -- writes and every expiry lies before the year 10000; and the table goes on holding that function.
  pub perform_all_refines :
      ReadsBack
      → (calls : List (Call Data)) (db : Database) (f : Sessions Data) → AllInRange calls
      → Holds db f
      → ((perform_all calls db).0 ≡ map done (ideal_run calls f).0)
        × Holds (perform_all calls db).1 (ideal_run calls f).1
  unfolding perform_all ideal_run
  perform_all_refines law [] db f within h = (refl, h)
  perform_all_refines law (call ∷ calls) db f (now, later) h =
      let (same, held) = perform-refines law call db f now h in
      let (rest, kept) =
        perform_all_refines law calls (perform call db).1 (ideal call f).1 later held in
      (λ i. same i ∷ rest i, kept)
