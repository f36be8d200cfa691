-- ===== src/Api/Lists/Own.antt =====
-- The list of one's own submissions in a contest (`contest_submissions_my` of src/api/handlers.rs).
use mikan_judge.Prelude.{
  ◌≡◌, ◌≢◌, refl, sym, ap, ◌∙◌, inl, inr, ℕ, Bool, String, Option, some, List, [], ◌∷◌, All,
  All-sort_by, length, map, sort_by, filter_by, Bool-cases, Option-cases, take, drop, ◌-◌, ◌*◌, eqb,
  false, true, zero, suc, eqb→eq, arith,
}
use mikan_judge.Prelude.Int.{ℤ}
use mikan_judge.Types.Contest.{Contest, ContestProblem, upcoming, status}
use mikan_judge.Types.Records.{Uuid, User}
use mikan_judge.Db.{SubmissionRow, Database}
use mikan_judge.Db.Users.{user_with, is_by}
use mikan_judge.Db.Lists.Groups.{and_true}
use mikan_judge.Db.Lists.{list_row, newest_first, tied, in_contest, by_user, newest}
use mikan_judge.Api.Contexts.{SubmissionListItem}
use mikan_judge.Api.Paging.{per_page, total_pages, page_of, page_rows}
use mikan_judge.Api.Views.{Viewing}
use mikan_judge.Api.{World, listing}
use mikan_judge.Api.Sessions.{current_user_id}
use mikan_judge.Api.Submit.InContest.{contest_in}
use mikan_judge.Db.Outages.{query-answers}
use mikan_judge.Db.Users.{id_query, find_by_id}
use mikan_judge.Db.Contest.{problems_of, problems_query, problems_for_contest}
use mikan_judge.Db.Lists.{
  count_query, page_query, count_for_contest_by_user, list_for_contest_by_user,
}
use mikan_judge.Api.Views.{with_username}
use mikan_judge.Api.Contests.{under}
use mikan_judge.Api.Contests.Begun.{with_contest-next}
use mikan_judge.Api.Contexts.{Listing}
use mikan_judge.Api.Lists.{own_named, own_listed, own_pages, contest_submissions_my}
use mikan_judge.Api.Lists.{items, item_of, label_of, title_of}

module _ {ℓ κ} {A : Type ℓ} (P : A → Type κ) where
  All-take : (n : ℕ) (xs : List A) → All P xs → All P (take n xs)
  All-take zero xs h = tt
  All-take (suc n) [] h = tt
  All-take (suc n) (x ∷ xs) h = (h.0, All-take n xs h.1)

  All-drop : (n : ℕ) (xs : List A) → All P xs → All P (drop n xs)
  All-drop zero xs h = h
  All-drop (suc n) [] h = tt
  All-drop (suc n) (x ∷ xs) h = All-drop n xs h.1

  pub All-page_rows : (page : ℕ) (xs : List A) → All P xs → All P (page_rows page xs)
  unfolding page_rows
  All-page_rows page xs h =
      All-take per_page (drop ((page - 1) * per_page) xs) (All-drop ((page - 1) * per_page) xs h)

  pub All-filter_by :
      (p : A → Bool) → ((x : A) → p x ≡ true → P x) → (xs : List A) → All P (filter_by p xs)
  All-filter_by p h [] = tt
  All-filter_by p h (x ∷ xs) = elim (Bool-cases (p x)) [
    | inl kept ↦ rw kept (h x kept, All-filter_by p h xs)
    | inr left ↦ rw left (All-filter_by p h xs)
  ]

module _ {ℓ μ κ} {A : Type ℓ} {B : Type μ} (Q : B → Type κ) (f : A → B) where
  pub All-map : (xs : List A) → All (λ x. Q (f x)) xs → All Q (map f xs)
  All-map [] h = tt
  All-map (x ∷ xs) h = (h.0, All-map xs h.1)

-- What a user's own list may hold.
abbrev pub OwnItem : User → SubmissionListItem → Type 0
OwnItem u item = item.username ≡ some u.username

module _ (v : Viewing) (contest_id : String) (db : Database) (uid : Uuid) (u : User)
    (there : user_with uid db.users ≡ some u) where
  own_row :
      (cps : List ContestProblem) (r : SubmissionRow)
      → by_user contest_id uid r ≡ true
      → OwnItem u (item_of v (label_of v cps) (title_of v) (list_row db.users r))
  unfolding item_of
  own_row cps r h =
      let (_, mine) = and_true (in_contest contest_id r) (is_by uid r.user_id) h in
      elim (Option-cases r.user_id) [
        | inl nobody ↦
            let never : is_by uid r.user_id ≡ false = rw nobody refl in
            absurd (ground (arith, mine, never))
        | inr (x, by) ↦
            let equal : is_by uid r.user_id ≡ eqb x uid = rw by refl in
            let known = ap (λ z. user_with z db.users) (eqb→eq x uid (sym equal ∙ mine)) ∙ there in
            rw (by, known) refl
      ]

  -- Every entry on every page of a user's own list has the user's name.
  pub items-OwnItem :
      (cps : List ContestProblem) (page : ℕ)
      → All (OwnItem u) (items v cps (page_rows page (newest page (by_user contest_id uid) db)))
  items-OwnItem cps page =
      let item = item_of v (label_of v cps) (title_of v) in
      let rows = filter_by (by_user contest_id uid) db.submissions in
      let scanned = sort_by (tied (db.ties page)) rows in
      let P : SubmissionRow → Type 0 = λ r. OwnItem u (item (list_row db.users r)) in
      All-map (OwnItem u) item (page_rows page (newest page (by_user contest_id uid) db)) (
        All-page_rows (λ s. OwnItem u (item s)) page (newest page (by_user contest_id uid) db)
          (All-map (λ s. OwnItem u (item s)) (list_row db.users) (sort_by newest_first scanned)
            (All-sort_by P newest_first scanned (
              All-sort_by P (tied (db.ties page)) rows
                (All-filter_by P (by_user contest_id uid) (own_row cps) db.submissions)))))

abbrev pub own_rows : String → Uuid → Database → List SubmissionRow
own_rows contest_id uid db = filter_by (by_user contest_id uid) db.submissions

module _ (v : Viewing) (contest_id : String) (w : World) (answers : w.db.outages ≡ [])
    (contest : Contest) (found : contest_in contest_id w.db ≡ some contest)
    (begun : status contest v.first_reading ≢ upcoming) (uid : Uuid) (u : User)
    (user : current_user_id w.session ≡ some uid) (there : user_with uid w.db.users ≡ some u) where
  -- Where the server answers, the page of one's own submissions in a contest that has begun shows the
  -- user who is logged in only entries with the user's own name, whatever page the request names, and
  -- its number of pages is that of the user's submissions in the contest.
  pub contest_submissions_my-OwnItem :
      (page : Option ℤ)
      → (l : Listing) × ((contest_submissions_my v contest_id page w).0 ≡ listing l)
        × (l.total_pages ≡ total_pages (length (own_rows contest_id uid w.db)))
        × All (OwnItem u) l.submissions
  unfolding contest_submissions_my own_listed own_pages with_username find_by_id
      problems_for_contest count_for_contest_by_user list_for_contest_by_user page_rows
  contest_submissions_my-OwnItem page =
      let rows = by_user contest_id uid in
      let current = page_of page (total_pages (length (own_rows contest_id uid w.db))) in
      rw
        (
          with_contest-next v contest_id w answers contest found
              (under v contest_id "/submissions/my")
              (λ contest w'.
                with_username (own_named v contest_id page contest) (current_user_id w'.session) w')
              begun,
          user,
          query-answers (id_query uid) w.db answers,
          there,
          query-answers (problems_query contest_id) w.db answers,
          user,
          query-answers (count_query rows) w.db answers,
          query-answers (page_query rows current per_page) w.db answers,
        )
        (
          _,
          refl,
          refl,
          items-OwnItem v contest_id w.db uid u there (problems_of contest_id w.db) current,
        )
