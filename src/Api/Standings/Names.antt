-- ===== src/Api/Standings/Names.antt =====
-- The name on a row of `contest_standings` of src/api/handlers.rs.
use mikan_judge.Prelude.{
  ◌≡◌, refl, sym, ap, ◌∙◌, inl, inr, String, Option, none, some, List, [], ◌∷◌, All, All-sort_by,
  sort_by, filter_map, eqb, eqb→eq, Bool-cases, Option-cases, some_inj,
}
use mikan_judge.Types.Records.{Uuid, User}
use mikan_judge.Db.{SubmissionRow}
use mikan_judge.Db.Users.{user_with}
use mikan_judge.Db.Lists.{Best, same_group, joined, add_to, group_by, group_leb}
use mikan_judge.Db.Lists.Bests.{find-holds}
use mikan_judge.Api.Standings.Rows.{UserData, UserMap, enter, user_map_from, user_map}
use mikan_judge.Api.Standings.Results.{data_of}

module _ {A : Type 0} (uid : Uuid) (name : String) where
  abbrev Called : Best A → Type 0
  Called b = b.user_id ≡ uid → b.username ≡ name

  abbrev CalledIn : Uuid × UserData A → Type 0
  CalledIn (k, ud) = k ≡ uid → ud.username ≡ name

  All-add_to :
      (f : A → A → A) (b : Best A) (gs : List (Best A))
      → Called b
      → All Called gs
      → All Called (add_to f b gs)
  unfolding add_to
  All-add_to f b [] h hs = (h, tt)
  All-add_to f b (g ∷ gs) h hs = elim (Bool-cases (same_group b.user_id b.problem_id g)) [
    | inl same ↦ rw same hs
    | inr other ↦ rw other (hs.0, All-add_to f b gs h hs.1)
  ]

  All-group_by : (f : A → A → A) (bs : List (Best A)) → All Called bs → All Called (group_by f bs)
  unfolding group_by
  All-group_by f [] hs = tt
  All-group_by f (b ∷ bs) hs = All-add_to f b (group_by f bs) hs.0 (All-group_by f bs hs.1)

  All-enter :
      (row : Best A) (m : UserMap A) → Called row → All CalledIn m → All CalledIn (enter row m)
  unfolding enter
  All-enter row [] h hs = (h, tt)
  All-enter row ((k, ud) ∷ m) h hs = elim (Bool-cases (eqb k row.user_id)) [
    | inl same ↦ rw same hs
    | inr other ↦ rw other (hs.0, All-enter row m h hs.1)
  ]

  All-user_map_from :
      (m : UserMap A) (rows : List (Best A))
      → All CalledIn m
      → All Called rows
      → All CalledIn (user_map_from m rows)
  unfolding user_map_from
  All-user_map_from m [] hm hs = hm
  All-user_map_from m (row ∷ rows) hm hs =
      All-user_map_from (enter row m) rows (All-enter row m hs.0 hm) hs.1

  data_of-called :
      (m : UserMap A) {ud : UserData A}
      → All CalledIn m
      → data_of uid m ≡ some ud
      → ud.username ≡ name
  data_of-called [] hs e = cc
  data_of-called ((k, ud') ∷ m) {ud} hs e = elim (Bool-cases (eqb k uid)) [
    | inl own ↦
        let found : data_of uid ((k, ud') ∷ m) ≡ some ud' = rw own refl in
        ap (λ z. z.username) (some_inj (sym e ∙ found)) ∙ hs.0 (eqb→eq k uid own)
    | inr strange ↦
        let skipped : data_of uid ((k, ud') ∷ m) ≡ data_of uid m = rw strange refl in
        data_of-called m hs.1 (sym skipped ∙ e)
  ]

module _ {A : Type 0} (value : SubmissionRow → Option A) (uid : Uuid) (users : List User) (u : User)
    (there : user_with uid users ≡ some u) where
  same_name :
      (w : Uuid) (u' : User) → user_with w users ≡ some u' → u'.id ≡ uid → u'.username ≡ u.username
  same_name w u' found e =
      let whose = eqb→eq u'.id w (find-holds (λ z. eqb z.id w) users found) in
      ap (λ z. z.username)
        (some_inj (sym found ∙ ap (λ z. user_with z users) (sym whose ∙ e) ∙ there))

  All-one_row :
      (r : SubmissionRow) (bs : List (Best A))
      → All (Called uid u.username) bs
      → All (Called uid u.username) (elim (joined users value r) [ none ↦ bs | some b ↦ b ∷ bs ])
  All-one_row r bs hs = elim (Option-cases r.user_id) [
    | inl nobody ↦ rw nobody hs
    | inr (w, by) ↦ elim (Option-cases (user_with w users)) [
      | inl gone ↦ rw (by, gone) hs
      | inr (u', found) ↦ elim (Option-cases (value r)) [
        | inl valueless ↦ rw (valueless, by, found) hs
        | inr (x, valued) ↦ rw (valued, by, found) (same_name w u' found, hs)
      ]
    ]
  ]

  All-joined :
      (rows : List SubmissionRow)
      → All (Called uid u.username) (filter_map (joined users value) rows)
  All-joined [] = tt
  All-joined (r ∷ rows) = All-one_row r (filter_map (joined users value) rows) (All-joined rows)

  -- Whoever is in the map under a user's id has that user's name.
  pub user_map-name :
      (f : A → A → A) (rows : List SubmissionRow) {ud : UserData A}
      → data_of uid
          (user_map (sort_by group_leb (group_by f (filter_map (joined users value) rows))))
        ≡ some ud
      → ud.username ≡ u.username
  unfolding user_map
  user_map-name f rows e =
      let groups = group_by f (filter_map (joined users value) rows) in
      let called =
        All-sort_by (Called uid u.username) group_leb groups (
          All-group_by uid u.username f (filter_map (joined users value) rows) (All-joined rows)) in
      data_of-called uid u.username (user_map (sort_by group_leb groups))
        (All-user_map_from uid u.username [] (sort_by group_leb groups) tt called) e
