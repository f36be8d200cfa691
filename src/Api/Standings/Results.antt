-- ===== src/Api/Standings/Results.antt =====
-- What the maps of `contest_standings` of src/api/handlers.rs hold for one user and problem.
use mikan_judge.Prelude.{
  ◌≤◌, ◌≡◌, refl, ap, ◌∙◌, inl, inr, String, Bool, true, false, ◌&&◌, ◌==◌, Option, none, some,
  List, [], ◌∷◌, eqb, eqb→eq, Bool-cases, and_then, count, arith, if◌then◌else◌,
}
use mikan_judge.Types.Records.{Uuid}
use mikan_judge.Db.Lists.{Best, same_group}
use mikan_judge.Db.Lists.Groups.{and_true, folded}
use mikan_judge.Api.Standings.Rows.{UserData, UserMap, result_in, enter, user_map_from, user_map}

and_rest : (a b : Bool) → a ≡ true → a && b ≡ false → b ≡ false
and_rest true b p h = h
and_rest false b p h = cc

or_none {ℓ} : {A : Type ℓ} (o : Option A) → elim o [ none ↦ none | some x ↦ some x ] ≡ o
or_none none = refl
or_none (some x) = refl

module _ {A : Type 0} (uid : Uuid) where
  -- The entry of the user.
  abbrev pub data_of : UserMap A → Option (UserData A)
  data_of [] = none
  data_of ((k, ud) ∷ m) = if eqb k uid then some ud else data_of m

  module _ (pid : String) where
    abbrev pub looked_up : UserMap A → Option A
    looked_up m = and_then (data_of m) (λ ud. result_in pid ud.results)

    enter-own :
        (row : Best A) (m : UserMap A)
        → same_group uid pid row ≡ true
        → looked_up (enter row m) ≡ some row.value
    unfolding enter
    enter-own row [] h =
        let (own, here) = and_true (eqb row.user_id uid) (row.problem_id == pid) h in
        rw (own, here) refl
    enter-own row ((k, ud) ∷ m) h =
        let (own, here) = and_true (eqb row.user_id uid) (row.problem_id == pid) h in
        elim (Bool-cases (eqb k row.user_id)) [
          | inl same ↦
              let mine : eqb k uid ≡ true = rw (eqb→eq k row.user_id same) own in
              rw (same, mine, here) refl
          | inr other ↦
              let not_mine : eqb k uid ≡ false = rw (← eqb→eq row.user_id uid own) other in
              rw (other, not_mine) (enter-own row m h)
        ]

    enter-other :
        (row : Best A) (m : UserMap A)
        → same_group uid pid row ≡ false
        → looked_up (enter row m) ≡ looked_up m
    unfolding enter
    enter-other row [] h = elim (Bool-cases (eqb row.user_id uid)) [
      | inl own ↦
          let away : row.problem_id == pid ≡ false =
            and_rest (eqb row.user_id uid) (row.problem_id == pid) own h in
          rw (own, away) refl
      | inr strange ↦ rw strange refl
    ]
    enter-other row ((k, ud) ∷ m) h = elim (Bool-cases (eqb k row.user_id)) [
      | inl same ↦ elim (Bool-cases (eqb k uid)) [
        | inl mine ↦
            let own : eqb row.user_id uid ≡ true = rw (← eqb→eq k row.user_id same) mine in
            let away = and_rest (eqb row.user_id uid) (row.problem_id == pid) own h in
            rw (same, mine, away) refl
        | inr not_mine ↦ rw (same, not_mine) refl
      ]
      | inr other ↦ elim (Bool-cases (eqb k uid)) [
        | inl mine ↦ rw (other, mine) refl
        | inr not_mine ↦ rw (other, not_mine) (enter-other row m h)
      ]
    ]

    module _ (f : A → A → A) where
      none-left :
          (rows : List (Best A))
          → count (same_group uid pid) rows ≤ 0
          → folded f uid pid rows ≡ none
      none-left [] h = refl
      none-left (row ∷ rows) h = elim (Bool-cases (same_group uid pid row)) [
        | inl own ↦ absurd (ground (arith, h, own))
        | inr strange ↦ rw strange (none-left rows (omega (arith, h)))
      ]

      user_map_from-looked_up :
          (m : UserMap A) (rows : List (Best A))
          → count (same_group uid pid) rows ≤ 1
          → looked_up (user_map_from m rows)
            ≡ elim (folded f uid pid rows) [ none ↦ looked_up m | some x ↦ some x ]
      unfolding user_map_from
      user_map_from-looked_up m [] h = refl
      user_map_from-looked_up m (row ∷ rows) h = elim (Bool-cases (same_group uid pid row)) [
        | inl own ↦
            let few : count (same_group uid pid) rows ≤ 0 = ground (arith, h, own) in
            let gone = none-left rows few in
            let later = user_map_from-looked_up (enter row m) rows (omega (arith, few)) in
            rw (own, gone) (later ∙ rw gone (enter-own row m own))
        | inr strange ↦
            let few : count (same_group uid pid) rows ≤ 1 = omega (arith, h) in
            let later = user_map_from-looked_up (enter row m) rows few in
            rw strange (
              later
              ∙ ap (λ o. elim (folded f uid pid rows) [ none ↦ o | some x ↦ some x ])
                  (enter-other row m strange))
      ]

      pub user_map-looked_up :
          (rows : List (Best A))
          → count (same_group uid pid) rows ≤ 1
          → looked_up (user_map rows) ≡ folded f uid pid rows
      unfolding user_map
      user_map-looked_up rows h =
          user_map_from-looked_up [] rows h ∙ or_none (folded f uid pid rows)
