-- ===== src/SessionStore/Rows.antt =====
-- The rows of `tower_sessions` under the queries of src/session_store.rs.
use mikan_judge.Prelude.{
  ◌≡◌, refl, String, true, false, not, none, some, List, [], ◌∷◌, ◌++◌, map, ◌==◌, eq_iff, eq_refl,
  filter_by, is_some, Bool-cases, Option-cases, inl, inr, arith, if◌then◌else◌,
}
use mikan_judge.Db.{SessionRow}
use mikan_judge.SessionStore.{SessionId, row_of, upsert}

==-sym : (s t : String) → (s == t) ≡ false → (t == s) ≡ false
==-sym s t h = elim (Bool-cases (t == s)) [
  | inl same ↦ absurd (ground (arith, h, eq_refl s, (eq_iff t s).0 same))
  | inr other ↦ other
]

module _ (new : SessionRow) where
  abbrev replaced : List SessionRow → List SessionRow
  replaced rows = map (λ r. if r.id == new.id then new else r) rows

  row_of-replaced :
      (rows : List SessionRow)
      → is_some (row_of new.id rows) ≡ true
      → row_of new.id (replaced rows) ≡ some new
  row_of-replaced [] h = cc
  row_of-replaced (r ∷ rows) h = elim (Bool-cases (r.id == new.id)) [
    | inl same ↦ rw (same, eq_refl new.id) refl
    | inr other ↦ rw (other, other) (row_of-replaced rows (ground (arith, h, other)))
  ]

  row_of-replaced_ne :
      (q : SessionId) (rows : List SessionRow)
      → (new.id == q) ≡ false
      → row_of q (replaced rows) ≡ row_of q rows
  row_of-replaced_ne q [] h = refl
  row_of-replaced_ne q (r ∷ rows) h = elim (Bool-cases (r.id == new.id)) [
    | inl same ↦
        let e = (eq_iff r.id new.id).0 same in rw (same, h, e, h) (row_of-replaced_ne q rows h)
    | inr other ↦ rw other (ground (arith, row_of-replaced_ne q rows h))
  ]

  row_of-append :
      (rows : List SessionRow)
      → row_of new.id rows ≡ none
      → row_of new.id (rows ++ new ∷ []) ≡ some new
  row_of-append [] h = rw (eq_refl new.id) refl
  row_of-append (r ∷ rows) h = elim (Bool-cases (r.id == new.id)) [
    | inl same ↦ absurd (ground (arith, h, same))
    | inr other ↦ rw other (row_of-append rows (ground (arith, h, other)))
  ]

  row_of-append_ne :
      (q : SessionId) (rows : List SessionRow)
      → (new.id == q) ≡ false
      → row_of q (rows ++ new ∷ []) ≡ row_of q rows
  row_of-append_ne q [] h = rw h refl
  row_of-append_ne q (r ∷ rows) h = elim (Bool-cases (r.id == q)) [
    | inl same ↦ rw same refl
    | inr other ↦ rw other (row_of-append_ne q rows h)
  ]

  -- An upsert sets the row of its key and no other.
  pub row_of-upsert : (rows : List SessionRow) → row_of new.id (upsert new rows) ≡ some new
  row_of-upsert rows = elim (Option-cases (row_of new.id rows)) [
    | inl free ↦ rw free (row_of-append rows free)
    | inr (r, there) ↦ rw there (row_of-replaced rows (rw there refl))
  ]

  pub row_of-upsert_ne :
      (q : SessionId) (rows : List SessionRow)
      → (new.id == q) ≡ false
      → row_of q (upsert new rows) ≡ row_of q rows
  row_of-upsert_ne q rows h = elim (Option-cases (row_of new.id rows)) [
    | inl free ↦ rw free (row_of-append_ne q rows h)
    | inr (r, there) ↦ rw there (row_of-replaced_ne q rows h)
  ]

module _ (id : SessionId) where
  abbrev pub without : List SessionRow → List SessionRow
  without rows = filter_by (λ r. not (r.id == id)) rows

  -- A deletion takes the row of its key away and no other.
  pub row_of-without : (rows : List SessionRow) → row_of id (without rows) ≡ none
  row_of-without [] = refl
  row_of-without (r ∷ rows) = elim (Bool-cases (r.id == id)) [
    | inl same ↦ rw same (row_of-without rows)
    | inr other ↦ rw (other, other) (row_of-without rows)
  ]

  pub row_of-without_ne :
      (q : SessionId) (rows : List SessionRow)
      → (id == q) ≡ false
      → row_of q (without rows) ≡ row_of q rows
  row_of-without_ne q [] h = refl
  row_of-without_ne q (r ∷ rows) h = elim (Bool-cases (r.id == id)) [
    | inl same ↦ let e = (eq_iff r.id id).0 same in rw (same, e, h) (row_of-without_ne q rows h)
    | inr other ↦ elim (Bool-cases (r.id == q)) [
      | inl here ↦ rw (other, here) refl
      | inr there ↦ rw (other, there) (row_of-without_ne q rows h)
    ]
  ]
