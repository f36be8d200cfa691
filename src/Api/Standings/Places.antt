-- ===== src/Api/Standings/Places.antt =====
-- Who stands in the standings (`contest_standings` of src/api/handlers.rs), from the map of the users.
use mikan_judge.Prelude.{
  ℕ, ◌+◌, ◌≤◌, ◌≡◌, ◌≢◌, refl, sym, ap, ◌∙◌, inl, inr, String, Bool, true, Option, some, List, [],
  ◌∷◌, map, count, some_inj, eqb, Bool-cases, arith, if◌then◌else◌,
}
use mikan_judge.Prelude.Int.{ℤ}
use mikan_judge.Types.Contest.{Contest, upcoming, status}
use mikan_judge.Types.Status.{is_heuristic}
use mikan_judge.Types.Records.{Uuid}
use mikan_judge.Db.Outages.{query-answers}
use mikan_judge.Db.Contest.{problems_of, problems_query, problems_for_contest}
use mikan_judge.Api.{Response, World}
use mikan_judge.Api.Contexts.{StandingRow}
use mikan_judge.Api.Submit.InContest.{contest_in}
use mikan_judge.Api.Views.{Viewing}
use mikan_judge.Api.Contests.{under}
use mikan_judge.Api.Contests.Begun.{with_contest-next, for_user-named}
use mikan_judge.Api.Standings.{RowWithRaw, ScoreOps, standings}
use mikan_judge.Api.Standings.Ranks.{unranked, standings-Climbs}
use mikan_judge.Api.Standings.Rows.{UserData, UserMap}
use mikan_judge.Api.Standings.Results.{data_of}
use mikan_judge.Api.Standings.Table.{Tabling, ranked, table_page, tabled, contest_standings}

count-map :
    {A B : Type 0} (p : B → Bool) (f : A → B) (xs : List A)
    → count p (map f xs) ≡ count (λ x. p (f x)) xs
count-map p f [] = refl
count-map p f (x ∷ xs) = ap (λ n. (if p (f x) then 1 else 0) + n) (count-map p f xs)

-- The values of a map, in the order of its entries.
abbrev pub values : {A : Type 0} → List (Uuid × A) → List A
values m = map (λ e. e.1) m

data_of-count :
    {A : Type 0} (p : UserData A → Bool) (uid : Uuid) (m : UserMap A) {ud : UserData A}
    → data_of uid m ≡ some ud
    → p ud ≡ true
    → 1 ≤ count p (values m)
data_of-count p uid [] found h = cc
data_of-count p uid ((k, ud') ∷ m) {ud} found h = elim (Bool-cases (eqb k uid)) [
  | inl own ↦
      let e : data_of uid ((k, ud') ∷ m) ≡ some ud' = rw own refl in
      let passes : p ud' ≡ true = ap p (some_inj (sym e ∙ found)) ∙ h in
      omega (arith, ap {B = ℕ} (λ b. if b then 1 else 0) passes)
  | inr strange ↦
      let e : data_of uid ((k, ud') ∷ m) ≡ data_of uid m = rw strange refl in
      omega (arith, data_of-count p uid m (sym e ∙ found) h)
]

module _ {A : Type 0} (ops : ScoreOps) (heuristic : Bool) (row : UserData A → RowWithRaw)
    (yielded : UserMap A → List (UserData A))
    (yields : (p : UserData A → Bool) (m : UserMap A)
      → count p (yielded m) ≡ count p (values m)) where
  -- A user with an entry in the map stands in the standings with the row that the entry makes.
  pub standings-entry :
      (uid : Uuid) (m : UserMap A) {ud : UserData A} (target : RowWithRaw)
      → data_of uid m ≡ some ud
      → row ud ≡ target
      → (p : StandingRow → Bool) → p (unranked target.row) ≡ true
      → 1 ≤ count (λ r. p (unranked r)) (standings ops heuristic (map row (yielded m)))
  standings-entry uid m {ud} target entered same p passes =
      let test : UserData A → Bool = λ d. p (unranked (row d).row) in
      let (_, _, kept) = standings-Climbs ops heuristic (map row (yielded m)) in
      let counted = kept p ∙ count-map (λ r. p (unranked r.row)) row (yielded m) ∙ yields test m in
      let tested : test ud ≡ true = ap (λ r. p (unranked r.row)) same ∙ passes in
      omega (arith, counted, data_of-count test uid m entered tested)

module _ (v : Viewing) (t : Tabling) (contest_id : String) (w : World) (contest : Contest)
    (page : Option ℤ) (rows : List RowWithRaw) where
  -- All the standings, of which a page is shown.
  abbrev pub whole_table : List StandingRow
  whole_table = standings t.ops (is_heuristic contest.judge_type) rows

  -- A page of the standings, under the name of who asks.
  abbrev pub IsPage : Response → Type 0
  IsPage response =
      (name : Option String) × (response
        ≡ table_page v t contest_id page contest (problems_of contest_id w.db) whole_table name)

  module _ (answers : w.db.outages ≡ []) (found : contest_in contest_id w.db ≡ some contest)
      (begun : status contest v.first_reading ≢ upcoming) where
    pub ranked-IsPage :
        IsPage (ranked v t contest_id page contest (problems_of contest_id w.db) rows w).0
    ranked-IsPage =
        for_user-named
          (table_page v t contest_id page contest (problems_of contest_id w.db) whole_table) w

    pub contest_standings-IsPage :
        IsPage
          (tabled v t contest_id page contest
            (problems_of contest_id w.db)
            (is_heuristic contest.judge_type)
            w).0
        → IsPage (contest_standings v t contest_id page w).0
    unfolding contest_standings problems_for_contest
    contest_standings-IsPage rest =
        rw
          (
            with_contest-next v contest_id w answers contest found (under v contest_id "/standings")
                _ begun,
            query-answers (problems_query contest_id) w.db answers,
          )
          rest
