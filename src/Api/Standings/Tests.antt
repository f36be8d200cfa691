-- ===== src/Api/Standings/Tests.antt =====
-- Three rows of an exact contest, and the theorem about their ranks.
use mikan_judge.Prelude.{
  ℕ, ◌≡◌, refl, Bool, false, Option, some, List, [], ◌∷◌, map, count, ltb, eqb, sort_by, String,
  if◌then◌else◌,
}
use mikan_judge.Api.Contexts.{StandingRow}
use mikan_judge.Api.Standings.{
  RowWithRaw, ScoreOps, less, more, equal, in_front, rank_from, opens, standings,
}
use mikan_judge.Api.Standings.Ranks.{Climbs, FirstIsOne, unranked, standings-Climbs}

abbrev pub ops : ScoreOps
ops = record {
  partial_cmp = λ a b. if ltb a b then less else if ltb b a then more else equal;
  near = λ a b. eqb a b;
}

abbrev of_user : String → ℕ → Option ℕ → Option String → RowWithRaw
of_user name total last elapsed = record {
  row = record {
    rank = 0;
    username = name;
    total_score = "";
    elapsed_from_start = elapsed;
    problems = [];
  };
  total_score_raw = total;
  last_ac_raw = last;
}

abbrev rows : List RowWithRaw
rows =
    of_user "cid" 100 (some 9) (some "0:00:09")
    ∷ of_user "ann" 300 (some 5) (some "0:00:05")
    ∷ of_user "bob" 300 (some 5) (some "0:00:05")
    ∷ []

ranks : map (λ r. r.rank) (standings ops false rows) ≡ 1 ∷ 1 ∷ 3 ∷ []
unfolding standings in_front rank_from opens sort_by
ranks = refl

standings-Climbs_example :
    Climbs 0 0 (standings ops false rows)
    × FirstIsOne (standings ops false rows)
    × ((p : StandingRow → Bool)
        → count (λ r. p (unranked r)) (standings ops false rows)
          ≡ count (λ r. p (unranked r.row)) rows)
standings-Climbs_example = standings-Climbs ops false rows
