-- ===== src/Db/Lists/Groups.antt =====
-- `GROUP BY` in the queries of src/db/submission.rs: a group has the aggregate of its rows, and no two
-- groups have one key.
use mikan_judge.Prelude.{
  ℕ, ◌≤◌, ◌≡◌, refl, sym, ap, ◌∙◌, inl, inr, String, Bool, true, false, ◌&&◌, ◌==◌, eq_iff, Option,
  none, some, List, [], ◌∷◌, eqb, eqb→eq, Bool-cases, count, sort_by, insert_by, count-sort_by,
  arith, if◌then◌else◌,
}
use mikan_judge.Types.Records.{Uuid}
use mikan_judge.Db.Lists.{Best, same_group, add_to, group_by, group_leb}

pub and_true : (a b : Bool) → a && b ≡ true → (a ≡ true) × (b ≡ true)
and_true true true h = (refl, refl)
and_true true false h = cc
and_true false b h = cc

module _ {A : Type 0} where
  same_group-key :
      (uid : Uuid) (pid : String) (g : Best A)
      → same_group uid pid g ≡ true
      → (g.user_id ≡ uid) × (g.problem_id ≡ pid)
  same_group-key uid pid g h =
      let (own, here) = and_true (eqb g.user_id uid) (g.problem_id == pid) h in
      (eqb→eq g.user_id uid own, (eq_iff g.problem_id pid).0 here)

  same_group_trans :
      (uid : Uuid) (pid : String) (g b : Best A)
      → same_group uid pid g ≡ true
      → same_group uid pid b ≡ true
      → same_group b.user_id b.problem_id g ≡ true
  same_group_trans uid pid g b hg hb = let (e, e') = same_group-key uid pid b hb in rw (e, e') hg

  same_group-cong :
      (uid : Uuid) (pid : String) (g b : Best A)
      → same_group b.user_id b.problem_id g ≡ true
      → same_group uid pid g ≡ same_group uid pid b
  same_group-cong uid pid g b h =
      let (e, e') = same_group-key b.user_id b.problem_id g h in rw (e, e') refl

  module _ (f : A → A → A) where
    abbrev pub join : Option A → A → A
    join none x = x
    join (some r) x = f r x

    abbrev pub combined : List A → Option A
    combined [] = none
    combined (x ∷ xs) = some (join (combined xs) x)

    module _ (uid : Uuid) (pid : String) where
      abbrev pub step : Best A → Option A → Option A
      step b rest = if same_group uid pid b then some (join rest b.value) else rest

      -- The aggregate of the rows with one key.
      abbrev pub folded : List (Best A) → Option A
      folded [] = none
      folded (b ∷ bs) = step b (folded bs)

  module _ (f : A → A → A) (assoc : (a b c : A) → f a (f b c) ≡ f (f a b) c)
      (comm : (a b : A) → f a b ≡ f b a) (uid : Uuid) (pid : String) where
    join-swap :
        (o : Option A) (x y : A) → join f (some (join f o x)) y ≡ join f (some (join f o y)) x
    join-swap none x y = comm x y
    join-swap (some r) x y = sym (assoc r x y) ∙ ap (λ z. f r z) (comm x y) ∙ assoc r y x

    join_assoc : (o : Option A) (x y : A) → join f o (f x y) ≡ f (join f o x) y
    join_assoc none x y = refl
    join_assoc (some r) x y = assoc r x y

    step-swap :
        (a b : Best A) (o : Option A)
        → step f uid pid a (step f uid pid b o) ≡ step f uid pid b (step f uid pid a o)
    step-swap a b o = elim (Bool-cases (same_group uid pid a)) [
      | inl ha ↦ elim (Bool-cases (same_group uid pid b)) [
        | inl hb ↦ rw (ha, hb) (ap some (join-swap o b.value a.value))
        | inr hb ↦ rw (ha, hb) refl
      ]
      | inr ha ↦ rw ha refl
    ]

    folded-add_to :
        (b : Best A) (gs : List (Best A))
        → folded f uid pid (add_to f b gs) ≡ folded f uid pid (b ∷ gs)
    unfolding add_to
    folded-add_to b [] = refl
    folded-add_to b (g ∷ gs) = elim (Bool-cases (same_group b.user_id b.problem_id g)) [
      | inl same ↦ elim (Bool-cases (same_group uid pid b)) [
        | inl own ↦
            let e = same_group-cong uid pid g b same ∙ own in
            rw (same, e, own) (ap some (join_assoc (folded f uid pid gs) g.value b.value))
        | inr strange ↦
            let e = same_group-cong uid pid g b same ∙ strange in rw (same, e, strange) refl
      ]
      | inr other ↦
          rw other
            (ap (step f uid pid g) (folded-add_to b gs) ∙ step-swap g b (folded f uid pid gs))
    ]

    pub folded-group_by :
        (bs : List (Best A)) → folded f uid pid (group_by f bs) ≡ folded f uid pid bs
    unfolding group_by
    folded-group_by [] = refl
    folded-group_by (b ∷ bs) =
        folded-add_to b (group_by f bs) ∙ ap (step f uid pid b) (folded-group_by bs)

    folded-insert_by :
        (b : Best A) (bs : List (Best A))
        → folded f uid pid (insert_by group_leb b bs) ≡ folded f uid pid (b ∷ bs)
    unfolding insert_by
    folded-insert_by b [] = refl
    folded-insert_by b (c ∷ cs) = elim (Bool-cases (group_leb b c)) [
      | inl below ↦ rw below refl
      | inr above ↦
          rw above
            (ap (step f uid pid c) (folded-insert_by b cs) ∙ step-swap c b (folded f uid pid cs))
    ]

    pub folded-sort_by :
        (bs : List (Best A)) → folded f uid pid (sort_by group_leb bs) ≡ folded f uid pid bs
    unfolding sort_by
    folded-sort_by [] = refl
    folded-sort_by (b ∷ bs) =
        folded-insert_by b (sort_by group_leb bs) ∙ ap (step f uid pid b) (folded-sort_by bs)

  module _ (f : A → A → A) (uid : Uuid) (pid : String) where
    abbrev pub groups_of : List (Best A) → ℕ
    groups_of bs = count (same_group uid pid) bs

    other-count :
        (b : Best A) (gs : List (Best A))
        → same_group uid pid b ≡ false
        → groups_of (add_to f b gs) ≡ groups_of gs
    unfolding add_to
    other-count b [] h = rw h refl
    other-count b (g ∷ gs) h = elim (Bool-cases (same_group b.user_id b.problem_id g)) [
      | inl same ↦ let e = same_group-cong uid pid g b same ∙ h in rw (same, e) refl
      | inr other ↦ rw other (omega (arith, other-count b gs h))
    ]

    own-count :
        (b : Best A) (gs : List (Best A))
        → same_group uid pid b ≡ true
        → groups_of gs ≤ 1
        → groups_of (add_to f b gs) ≤ 1
    unfolding add_to
    own-count b [] h few = rw h (omega arith)
    own-count b (g ∷ gs) h few = elim (Bool-cases (same_group b.user_id b.problem_id g)) [
      | inl same ↦ let e = same_group-cong uid pid g b same in rw same few
      | inr other ↦ elim (Bool-cases (same_group uid pid g)) [
        | inl own ↦ absurd (ground (arith, other, same_group_trans uid pid g b own h))
        | inr strange ↦
            let tail : groups_of gs ≤ 1 = omega (arith, few) in
            rw (other, strange) (omega (arith, own-count b gs h tail))
      ]
    ]

    group_by-few : (bs : List (Best A)) → groups_of (group_by f bs) ≤ 1
    unfolding group_by
    group_by-few [] = omega arith
    group_by-few (b ∷ bs) = elim (Bool-cases (same_group uid pid b)) [
      | inl own ↦ own-count b (group_by f bs) own (group_by-few bs)
      | inr other ↦ rw (other-count b (group_by f bs) other) (group_by-few bs)
    ]

    pub sorted-few : (bs : List (Best A)) → groups_of (sort_by group_leb (group_by f bs)) ≤ 1
    sorted-few bs =
        rw (count-sort_by group_leb (same_group uid pid) (group_by f bs)) (group_by-few bs)
