-- ===== src/Db/Submission/Rows.antt =====
-- One row of `submissions` under the updates of src/db/submission.rs.
use mathlib.Core.Option
use mikan_judge.Prelude.{◌≡◌, ◌≢◌, refl, List, [], ◌∷◌, eqb, arith, Bool-cases, inl, inr}
use mikan_judge.Types.Records.{Uuid}
use mikan_judge.Db.{SubmissionRow}
use mikan_judge.Db.Submission.{find_row, update_rows}

module _ (id : Uuid) (f : SubmissionRow → SubmissionRow)
    (keeps : (r : SubmissionRow) → (f r).id ≡ r.id) where
  -- An update by primary key changes the row of that key as `SET` says.
  pub find_row-update_rows :
      (rows : List SubmissionRow)
      → find_row id (update_rows id f rows) ≡ Option.map f (find_row id rows)
  find_row-update_rows [] = refl
  find_row-update_rows (r ∷ rows) = elim (Bool-cases (eqb r.id id)) [
    | inl same ↦ ground (arith, same, keeps r)
    | inr other ↦ ground (arith, other, find_row-update_rows rows)
  ]

  -- It leaves the row of every other key as it is.
  pub find_row-update_rows_ne :
      (j : Uuid) (rows : List SubmissionRow)
      → j ≢ id
      → find_row j (update_rows id f rows) ≡ find_row j rows
  find_row-update_rows_ne j [] h = refl
  find_row-update_rows_ne j (r ∷ rows) h = elim (Bool-cases (eqb r.id id)) [
    | inl same ↦ ground (arith, same, keeps r, find_row-update_rows_ne j rows h)
    | inr other ↦ ground (arith, other, find_row-update_rows_ne j rows h)
  ]
