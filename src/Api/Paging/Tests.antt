-- ===== src/Api/Paging/Tests.antt =====
-- Page marks at small numbers, and the theorems about pages at them.
use mikan_judge.Prelude.{ℕ, ◌≡◌, ◌≤◌, refl, List, [], ◌∷◌, count, eqb, All, arith}
use mikan_judge.Api.Paging.{build_pagination}
use mikan_judge.Api.Paging.Marks.{build_pagination-marks}

middle_page : build_pagination 6 12 ≡ 1 ∷ 0 ∷ 4 ∷ 5 ∷ 6 ∷ 7 ∷ 8 ∷ 0 ∷ 12 ∷ []
unfolding build_pagination
middle_page = refl

build_pagination-marks_example :
    (count (eqb 6) (build_pagination 6 12) ≡ 1) × All (λ m. m ≤ 12) (build_pagination 6 12)
build_pagination-marks_example = build_pagination-marks 6 12 (omega arith) (omega arith)

abbrev rows : List ℕ
rows = 4 ∷ 7 ∷ 9 ∷ []
