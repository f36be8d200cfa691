-- ===== src/Api/Standings/Ranks.antt =====
-- The ranks that `contest_standings` of src/api/handlers.rs gives.
use mikan_judge.Prelude.{
  ℕ, suc, ◌≤◌, ◌≡◌, refl, ◌∙◌, ◌⊎◌, inl, inr, String, Bool, Option, none, some, List, [], ◌∷◌,
  count, count-sort_by, sort_by, Bool-cases, arith,
}
use mikan_judge.Types.Records.{F64}
use mikan_judge.Api.Contexts.{StandingRow}
use mikan_judge.Api.Standings.{RowWithRaw, ScoreOps, in_front, opens, rank_from, standings}

-- From place `i` on, behind a row of rank `c`: each row has the rank of the row in front of it or its
-- own place, counted from 1, and no rank is above its place.
abbrev pub Climbs : ℕ → ℕ → List StandingRow → Type 0
Climbs i c [] = Unit
Climbs i c (r ∷ rs) =
    ((r.rank ≡ c) ⊎ (r.rank ≡ suc i)) × (c ≤ r.rank) × (r.rank ≤ suc i) × Climbs (suc i) r.rank rs

abbrev pub FirstIsOne : List StandingRow → Type 0
FirstIsOne [] = Unit
FirstIsOne (r ∷ rs) = r.rank ≡ 1

-- The row without its rank.
abbrev pub unranked : StandingRow → StandingRow
unranked r = record r { rank = 0 }

module _ (ops : ScoreOps) (heuristic : Bool) where
  rank_from-Climbs :
      (i : ℕ) (score : Option F64) (elapsed : Option String) (c : ℕ) (rs : List RowWithRaw)
      → c ≤ i
      → Climbs i c (rank_from ops heuristic i score elapsed c rs)
  unfolding rank_from
  rank_from-Climbs i score elapsed c [] h = tt
  rank_from-Climbs i score elapsed c (r ∷ rs) h =
      elim (Bool-cases (opens ops heuristic score elapsed r)) [
        | inl new ↦ rw new (
          inr refl,
          omega arith,
          omega arith,
          rank_from-Climbs (suc i) (some r.total_score_raw) r.row.elapsed_from_start (suc i) rs
              (omega arith),
        )
        | inr same ↦ rw same (
          inl refl,
          omega arith,
          omega arith,
          rank_from-Climbs (suc i) score elapsed c rs (omega arith),
        )
      ]

  first-one : (rs : List RowWithRaw) → FirstIsOne (rank_from ops heuristic 0 none none 0 rs)
  unfolding rank_from opens
  first-one [] = tt
  first-one (r ∷ rs) = refl

  rank_from-count :
      (p : StandingRow → Bool) (i : ℕ) (score : Option F64) (elapsed : Option String) (c : ℕ)
      (rs : List RowWithRaw)
      → count (λ r. p (unranked r)) (rank_from ops heuristic i score elapsed c rs)
        ≡ count (λ r. p (unranked r.row)) rs
  unfolding rank_from
  rank_from-count p i score elapsed c [] = refl
  rank_from-count p i score elapsed c (r ∷ rs) =
      elim (Bool-cases (opens ops heuristic score elapsed r)) [
        | inl new ↦ rw new (
            omega (
              arith,
              rank_from-count p (suc i) (some r.total_score_raw) r.row.elapsed_from_start (suc i)
                  rs,
            ))
        | inr same ↦ rw same (omega (arith, rank_from-count p (suc i) score elapsed c rs))
      ]

  -- The standings hold each row once with all but its rank as it was. The first row has rank 1, and
  -- each later row has the rank of the row in front of it or its own place, so that ranks never fall
  -- and never exceed the place.
  pub standings-Climbs :
      (rows : List RowWithRaw)
      → Climbs 0 0 (standings ops heuristic rows)
        × FirstIsOne (standings ops heuristic rows)
        × ((p : StandingRow → Bool)
            → count (λ r. p (unranked r)) (standings ops heuristic rows)
              ≡ count (λ r. p (unranked r.row)) rows)
  unfolding standings
  standings-Climbs rows = (
    rank_from-Climbs 0 none none 0 (sort_by (in_front ops) rows) (omega arith),
    first-one (sort_by (in_front ops) rows),
    λ p.
        rank_from-count p 0 none none 0 (sort_by (in_front ops) rows)
        ∙ count-sort_by (in_front ops) (λ r. p (unranked r.row)) rows,
  )
