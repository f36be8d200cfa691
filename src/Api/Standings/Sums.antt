-- ===== src/Api/Standings/Sums.antt =====
-- The loop over a user's problems in `contest_standings` of src/api/handlers.rs: what it adds up.
use mikan_judge.Prelude.{
  ℕ, ◌+◌, ◌%◌, ◌^◌, ◌<◌, max, ◌≡◌, refl, ap, inl, inr, String, Option, none, some, List, [], ◌∷◌,
  map, filter_map, decimal, Option-cases, arith,
}
use mathlib.Core.Option
use mikan_judge.Types.Contest.{DateTime, ContestProblem}
use mikan_judge.Types.Records.{F64}
use mikan_judge.Db.Lists.Groups.{join, combined}
use mikan_judge.Api.Standings.{RowWithRaw}
use mikan_judge.Api.Standings.Rows.{
  fmt_elapsed, secs_since, exact_cell, exact_cells, exact_row, keep_later,
}

abbrev later : Option DateTime → Option DateTime → Option DateTime
later none o = o
later (some a) none = some a
later (some a) (some b) = some (max a b)

nothing_later : (o : Option DateTime) → o ≡ later o none
nothing_later none = refl
nothing_later (some a) = refl

triple {ℓ} :
    {A B C : Type ℓ} {a a' : A} {b b' : B} {c c' : C}
    → a ≡ a'
    → b ≡ b'
    → c ≡ c'
    → ◌≡◌ {A = A × B × C} (a, b, c) (a', b', c')
triple e e' e'' = cc

module _ (start : DateTime) (score_of : String → ℕ) (solved : String → Option DateTime) where
  abbrev pub points_at : ContestProblem → Option DateTime → ℕ
  points_at cp none = 0
  points_at cp (some at) = score_of cp.problem_id

  -- The sum of the scores of the problems that are solved.
  abbrev pub points : List ContestProblem → ℕ
  points [] = 0
  points (cp ∷ cps) = points_at cp (solved cp.problem_id) + points cps

  -- When they were solved.
  abbrev pub solving_times : List ContestProblem → List DateTime
  solving_times cps = filter_map (λ cp. solved cp.problem_id) cps

  abbrev pub summed_row :
      (from_u64 : ℕ → F64) (username : String) → List ContestProblem → RowWithRaw
  summed_row from_u64 username cps =
      let total = points cps % 2 ^ 64 in
      let last = combined max (solving_times cps) in
      record {
        row = record {
          rank = 0;
          username = username;
          total_score = decimal total;
          elapsed_from_start = Option.map (λ t. fmt_elapsed (secs_since start t)) last;
          problems = map (exact_cell start score_of solved) cps;
        };
        total_score_raw = from_u64 total;
        last_ac_raw = last;
      }

  abbrev Sums : ℕ → Option DateTime → List ContestProblem → Type 0
  Sums total last cps = exact_cells start score_of solved total last cps ≡ (
    map (exact_cell start score_of solved) cps,
    (total + points cps) % 2 ^ 64,
    later last (combined max (solving_times cps)),
  )

  small : (t s : ℕ) → (t + s) % 2 ^ 64 < 2 ^ 64
  small t s = omega arith

  shifted : (t s p : ℕ) → ((t + s) % 2 ^ 64 + p) % 2 ^ 64 ≡ (t + (s + p)) % 2 ^ 64
  shifted t s p = omega arith

  moved_on :
      (last rest : Option DateTime) (at : DateTime)
      → later (keep_later start score_of solved last (some at)) rest
        ≡ later last (some (join max rest at))
  moved_on none none at = refl
  moved_on none (some b) at = ap some (omega arith)
  moved_on (some a) none at = refl
  moved_on (some a) (some b) at = ap some (omega arith)

  exact_cells-Sums :
      (total : ℕ) (last : Option DateTime) (cps : List ContestProblem)
      → total < 2 ^ 64
      → Sums total last cps
  unfolding exact_cells
  exact_cells-Sums total last [] h = triple refl (omega (arith, h)) (nothing_later last)
  exact_cells-Sums total last (cp ∷ cps) h = elim (Option-cases (solved cp.problem_id)) [
    | inl unsolved ↦
        rw (unsolved, exact_cells-Sums total last cps h) (triple refl (omega arith) refl)
    | inr (at, done) ↦
        let total' = (total + score_of cp.problem_id) % 2 ^ 64 in
        let last' = keep_later start score_of solved last (some at) in
        let ih = exact_cells-Sums total' last' cps (small total (score_of cp.problem_id)) in
        rw (done, ih)
          (triple refl (shifted total (score_of cp.problem_id) (points cps))
            (moved_on last (combined max (solving_times cps)) at))
  ]

  pub exact_row-summed :
      (from_u64 : ℕ → F64) (username : String) (cps : List ContestProblem)
      → exact_row start score_of solved from_u64 username cps ≡ summed_row from_u64 username cps
  unfolding exact_row
  exact_row-summed from_u64 username cps =
      let e : 0 + points cps ≡ points cps = omega arith in
      rw (exact_cells-Sums 0 none cps (omega arith), e) refl
