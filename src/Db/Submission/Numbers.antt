-- ===== src/Db/Submission/Numbers.antt =====
-- How many rows of `submissions` have one id, and how the queries of src/db/ change that.
use mikan_judge.Prelude.{
  ℕ, ◌+◌, ◌≡◌, refl, sym, ◌∙◌, inl, inr, String, Option, none, some, List, [], ◌∷◌, ◌++◌, map,
  count, eqb, Bool-cases, arith, if◌then◌else◌,
}
use mikan_judge.Types.Records.{Uuid}
use mikan_judge.Db.{Database, SubmissionRow, Db, attempt, query}
use mikan_judge.Db.Submission.{Json, Results, find_row, update_rows, with_results, update_result}
use mikan_judge.Db.Users.{unlink, is_by}

module _ (id : Uuid) where
  abbrev pub number : List SubmissionRow → ℕ
  number rows = count (λ r. eqb r.id id) rows

  pub number-map :
      (f : SubmissionRow → SubmissionRow) (keeps : (r : SubmissionRow) → (f r).id ≡ r.id)
      (rows : List SubmissionRow)
      → number (map f rows) ≡ number rows
  number-map f keeps [] = refl
  number-map f keeps (r ∷ rows) = rw (keeps r) (omega (arith, number-map f keeps rows))

  pub number-append :
      (rows more : List SubmissionRow) → number (rows ++ more) ≡ number rows + number more
  number-append [] more = omega arith
  number-append (r ∷ rows) more = omega (arith, number-append rows more)

  pub number-fresh : (rows : List SubmissionRow) → find_row id rows ≡ none → number rows ≡ 0
  number-fresh [] fresh = refl
  number-fresh (r ∷ rows) fresh = elim (Bool-cases (eqb r.id id)) [
    | inl taken ↦ absurd (ground (arith, fresh, taken))
    | inr other ↦
        let later : find_row id (r ∷ rows) ≡ find_row id rows = rw other refl in
        rw other (omega (arith, number-fresh rows (sym later ∙ fresh)))
  ]

  -- A query that leaves the numbers as they are.
  abbrev pub Keeps : {A : Type 0} → Db A → Type 0
  Keeps q = (db : Database) → number (q db).1.submissions ≡ number db.submissions

  attempt-Keeps :
      {A : Type 0} (os : List (Option String)) (q : Db A) → Keeps q → Keeps (attempt os q)
  attempt-Keeps [] q h db = h db
  attempt-Keeps (none ∷ rest) q h db = h (record db { outages = rest })
  attempt-Keeps (some e ∷ rest) q h db = refl

  pub query-Keeps : {A : Type 0} (q : Db A) → Keeps q → Keeps (query q)
  query-Keeps q h db = attempt-Keeps db.outages q h db

  pub update_rows-Keeps :
      (j : Uuid) (f : SubmissionRow → SubmissionRow) (keeps : (r : SubmissionRow) → (f r).id ≡ r.id)
      (rows : List SubmissionRow)
      → number (update_rows j f rows) ≡ number rows
  update_rows-Keeps j f keeps rows = number-map (λ r. if eqb r.id j then f r else r) each rows
    where
      each : (r : SubmissionRow) → (if eqb r.id j then f r else r).id ≡ r.id
      each r = elim (Bool-cases (eqb r.id j)) [
        | inl own ↦ rw own (keeps r)
        | inr other ↦ rw other refl
      ]

  pub update_result-Keeps :
      (json : Json) (j : Uuid) (res : Results) → Keeps (update_result json j res)
  unfolding update_result with_results
  update_result-Keeps json j res db =
      query-Keeps _ (λ d. update_rows-Keeps j (with_results json res) (λ r. refl) d.submissions) db

  pub unlink-Keeps :
      (j : Uuid) (rows : List SubmissionRow) → number (map (unlink j) rows) ≡ number rows
  unlink-Keeps j rows = number-map (unlink j) each rows
    where
      each : (r : SubmissionRow) → (unlink j r).id ≡ r.id
      each r = elim (Bool-cases (is_by j r.user_id)) [
        | inl own ↦ rw own refl
        | inr other ↦ rw other refl
      ]
