-- ===== src/Api/Paging.antt =====
-- Pages of 20 entries in src/api/handlers.rs: `build_pagination`, and the page that a request names.
-- The page numbers are `i64` in the source and at least 1 wherever they are used, so they are natural
-- numbers here.
pub mod Marks
pub mod Cover
mod Tests
use mikan_judge.Prelude.{
  ℕ, zero, suc, ◌+◌, ◌-◌, ◌*◌, ◌/◌, min, max, Option, none, some, List, [], ◌∷◌, ◌++◌, ltb, leb,
  take, drop, length, if◌then◌else◌,
}
use mikan_judge.Prelude.Int.{ℤ, pos, negsuc}

abbrev pub per_page : ℕ
per_page = 20

-- `((total + PER_PAGE - 1) / PER_PAGE).max(1)`
unfoldable pub total_pages : ℕ → ℕ
total_pages total = max ((total + per_page - 1) / per_page) 1

at_least_one : ℤ → ℕ
at_least_one (pos n) = max n 1
at_least_one (negsuc n) = 1

asked : Option ℤ → ℕ
asked none = 1
asked (some page) = at_least_one page

-- `pq.page.unwrap_or(1).max(1).min(total_pages)`
unfoldable pub page_of : Option ℤ → ℕ → ℕ
unfolding asked at_least_one
page_of query pages = min (asked query) pages

-- The numbers `a..a + n`.
abbrev pub range : ℕ → ℕ → List ℕ
range a zero = []
range a (suc n) = a ∷ range (suc a) n

abbrev pub left_end : ℕ → ℕ
left_end current = max (current - 2) 2

abbrev pub right_end : ℕ → ℕ → ℕ
right_end current total = min (current + 2) (total - 1)

-- 0 stands for an ellipsis.
unfoldable pub build_pagination : (current total : ℕ) → List ℕ
build_pagination current total =
    if leb total 7
    then range 1 total
    else 1 ∷ (if ltb 2 (left_end current) then 0 ∷ [] else [])
      ++ range (left_end current) (right_end current total + 1 - left_end current)
      ++ (if ltb (right_end current total) (total - 1) then 0 ∷ [] else [])
      ++ total ∷ []

-- `LIMIT per_page OFFSET (page - 1) * per_page`, and the slice of the standings.
unfoldable pub page_rows {ℓ} : {A : Type ℓ} → ℕ → List A → List A
page_rows page rows = take per_page (drop ((page - 1) * per_page) rows)
