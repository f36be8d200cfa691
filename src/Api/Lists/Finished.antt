-- ===== src/Api/Lists/Finished.antt =====
-- The list of all submissions of a contest (`contest_submissions_index` of src/api/handlers.rs).
use mikan_judge.Prelude.{
  ◌≡◌, ◌≢◌, refl, String, Option, some, List, [], length, map, true, sort_by, filter_by,
}
use mikan_judge.Prelude.Int.{ℤ}
use mikan_judge.Types.Contest.{Contest, upcoming, ongoing, status}
use mikan_judge.Db.{SubmissionRow, Database}
use mikan_judge.Db.Contest.{problems_of}
use mikan_judge.Db.Lists.{SubmissionListRow, list_row, newest_first, in_contest}
use mikan_judge.Api.{Response, listing, World}
use mikan_judge.Api.Contexts.{Listing}
use mikan_judge.Api.Paging.{total_pages, page_of, page_rows}
use mikan_judge.Api.Submit.InContest.{contest_in}
use mikan_judge.Api.Views.{Viewing}
use mikan_judge.Api.Contests.{under}
use mikan_judge.Api.Lists.{
  items, page_at, restricted, restricted_page, listed, contest_submissions_index,
}
use mikan_judge.Api.Contests.Begun.{with_contest-next, for_user-named}

abbrev pub rows_of : String → Database → List SubmissionRow
rows_of contest_id db = filter_by (in_contest contest_id) db.submissions

-- The submissions of a contest, the newest first.
abbrev pub all_rows : String → Database → List SubmissionListRow
all_rows contest_id db = map (list_row db.users) (sort_by newest_first (rows_of contest_id db))

module _ (v : Viewing) (contest_id : String) (w : World) (contest : Contest) where
  -- One page of the list.
  abbrev pub page_shown : Option ℤ → Option String → Response
  page_shown page name =
      let pages = total_pages (length (rows_of contest_id w.db)) in
      page_at v contest_id page contest
        (items v (problems_of contest_id w.db)
          (page_rows (page_of page pages) (all_rows contest_id w.db)))
        (page_of page pages) pages name

module _ (v : Viewing) (contest_id : String) (w : World) (answers : w.db.outages ≡ [])
    (contest : Contest) (found : contest_in contest_id w.db ≡ some contest)
    (begun : status contest v.first_reading ≢ upcoming) where
  -- While a contest is on by the second reading of the clock, and has begun by the first, the answer
  -- on every page is a list that holds no submission, is marked as restricted and has one page, where
  -- the server answers.
  pub contest_submissions_index-restricted :
      (page : Option ℤ)
      → status contest v.second_reading ≡ ongoing
      → (shown : Listing) × ((contest_submissions_index v contest_id page w).0 ≡ listing shown)
        × (shown.submissions ≡ [])
        × (shown.is_restricted ≡ true)
        × (shown.total_pages ≡ 1)
  unfolding contest_submissions_index listed
  contest_submissions_index-restricted page on =
      let (name, named) = for_user-named (restricted v contest_id page contest) w in
      (
        restricted_page v contest_id page contest name,
        rw
            (
              with_contest-next v contest_id w answers contest found
                  (under v contest_id "/submissions")
                  (λ contest. listed v contest_id page contest (status contest v.second_reading))
                  begun,
              on,
            )
            named,
        refl,
        refl,
        refl,
      )
