-- ===== src/Db/Lists/Bests.antt =====
-- What the two queries for the standings in src/db/submission.rs give for one user and problem.
use mikan_judge.Prelude.{
  ◌≡◌, refl, sym, ap, ◌∙◌, inl, inr, String, Bool, true, false, ◌&&◌, ◌==◌, Option, none, some,
  List, [], ◌∷◌, eqb, eqb→eq, Bool-cases, Option-cases, find, filter_map, arith, if◌then◌else◌,
}
use mikan_judge.Types.Records.{Uuid, User}
use mikan_judge.Db.{SubmissionRow}
use mikan_judge.Db.Users.{user_with, is_by}
use mikan_judge.Db.Lists.{Best, joined}
use mikan_judge.Db.Lists.Groups.{join, combined, folded}

pub find-holds {ℓ} :
    {A : Type ℓ} (p : A → Bool) (xs : List A) {x : A} → find p xs ≡ some x → p x ≡ true
find-holds p [] h = cc
find-holds p (y ∷ ys) {x} h = elim (Bool-cases (p y)) [
  | inl found ↦ ground (arith, h, found)
  | inr other ↦ let e : find p (y ∷ ys) ≡ find p ys = rw other refl in find-holds p ys (sym e ∙ h)
]

module _ {A : Type 0} (value : SubmissionRow → Option A) (uid : Uuid) (pid : String) where
  -- The value of a row of this user for this problem.
  abbrev pub own_value : SubmissionRow → Option A
  own_value r = if is_by uid r.user_id && r.problem_id == pid then value r else none

  abbrev pub own_values : List SubmissionRow → List A
  own_values rows = filter_map own_value rows

  module _ (f : A → A → A) (users : List User) (u : User)
      (there : user_with uid users ≡ some u) where
    -- One row more adds its value exactly where it is the user's for the problem.
    one_row :
        (r : SubmissionRow) (rest : List (Best A)) (vals : List A)
        → folded f uid pid rest ≡ combined f vals
        → folded f uid pid (elim (joined users value r) [ none ↦ rest | some b ↦ b ∷ rest ])
          ≡ combined f (elim (own_value r) [ none ↦ vals | some x ↦ x ∷ vals ])
    one_row r rest vals same = elim (Option-cases r.user_id) [
      | inl nobody ↦ rw nobody same
      | inr (w, by) ↦ elim (Bool-cases (eqb w uid)) [
        | inl own ↦
            let known = ap (λ z. user_with z users) (eqb→eq w uid own) ∙ there in
            let itself = find-holds (λ z. eqb z.id uid) users there in
            elim (Option-cases (value r)) [
              | inl valueless ↦ elim (Bool-cases (r.problem_id == pid)) [
                | inl here ↦ rw (valueless, by, known, own, here) same
                | inr away ↦ rw (valueless, by, known, own, away) same
              ]
              | inr (x, valued) ↦ elim (Bool-cases (r.problem_id == pid)) [
                | inl here ↦
                    rw (valued, by, known, own, here, itself) (ap (λ o. some (join f o x)) same)
                | inr away ↦ rw (valued, by, known, own, away, itself) same
              ]
            ]
        | inr strange ↦ elim (Option-cases (user_with w users)) [
          | inl gone ↦ rw (by, gone, strange) same
          | inr (u', known) ↦
              let whose = eqb→eq u'.id w (find-holds (λ z. eqb z.id w) users known) in
              let not_own : eqb u'.id uid ≡ false = rw whose strange in
              elim (Option-cases (value r)) [
                | inl valueless ↦ rw (valueless, by, known, strange) same
                | inr (x, valued) ↦ rw (valued, by, known, strange, not_own) same
              ]
        ]
      ]
    ]

    pub folded-joined :
        (rows : List SubmissionRow)
        → folded f uid pid (filter_map (joined users value) rows) ≡ combined f (own_values rows)
    folded-joined [] = refl
    folded-joined (r ∷ rows) =
        one_row r (filter_map (joined users value) rows) (own_values rows) (folded-joined rows)
