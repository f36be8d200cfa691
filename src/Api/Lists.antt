-- ===== src/Api/Lists.antt =====
-- The handlers of src/api/handlers.rs that list submissions: of a contest, of one's own in a
-- contest, and the latest of all.
use mathlib.Core.Option
pub mod Finished
pub mod Own
use mikan_judge.Prelude.{
  ℕ, String, Bool, true, false, ◌||◌, ◌==◌, Option, none, some, List, [], ◌∷◌, map, length,
  filter_by, unwrap_or, and_then, format, decimal, if◌then◌else◌,
}
use mikan_judge.Prelude.Int.{ℤ, to_u64}
use mikan_judge.Types.Language.{from_db, display_name_versioned}
use mikan_judge.Types.Status.{status_from_db, is_heuristic}
use mikan_judge.Types.Contest.{Contest, ContestProblem, ContestStatus, ongoing, status}
use mikan_judge.Types.Records.{Uuid}
use mikan_judge.Problem.{Problem, load_all}
use mikan_judge.Db.Contest.{problems_for_contest}
use mikan_judge.Db.Submission.{Json}
use mikan_judge.Db.Lists.{
  SubmissionListRow, list_recent, list_for_contest, count_for_contest, list_for_contest_by_user,
  count_for_contest_by_user,
}
use mikan_judge.Api.{Response, listing, failure, Handler, with_db, verdict_info}
use mikan_judge.Api.Contexts.{SubmissionListItem, Listing}
use mikan_judge.Api.Sessions.{current_user_id}
use mikan_judge.Api.Paging.{per_page, total_pages, page_of, build_pagination}
use mikan_judge.Api.Views.{Viewing, format_score, with_username}
use mikan_judge.Api.Contests.{for_user, with_contest, under}

abbrev verdict_names : Json → String → Option (List String)
verdict_names json s = elim (json.read_verdicts s) [
  | some vs ↦ some (map (λ tv. tv.verdict) vs)
  | none ↦ json.read_strings s
]

abbrev passed : String → Bool
passed s = s == "AC" || s == "SCORED"

unfoldable pub tc_summary_from_json : Json → String → Option String
tc_summary_from_json json s =
    Option.map
      (λ vs. format (decimal (length (filter_by passed vs)) ∷ "/" ∷ decimal (length vs) ∷ []))
      (verdict_names json s)

-- `get` of a `HashMap` that is collected from pairs: the last pair of a key counts.
abbrev pub map_get {ℓ} : {A : Type ℓ} → String → List (String × A) → Option A
map_get key [] = none
map_get key ((k, v) ∷ rest) = elim (map_get key rest) [
  | none ↦ if k == key then some v else none
  | some later ↦ some later
]

abbrev pub label_map : List ContestProblem → List (String × String)
label_map cps = map (λ cp. (cp.problem_id, cp.label)) cps

abbrev pub title_map : List Problem → List (String × String)
title_map problems = map (λ p. (p.id, p.title)) problems

module _ (v : Viewing) where
  unfoldable pub item_of : (label title : String → String) → SubmissionListRow → SubmissionListItem
  unfolding verdict_info tc_summary_from_json format_score
  item_of label title s =
      let (verdict, badge_class, _) = verdict_info (status_from_db s.status) in
      record {
        id = v.print_uuid s.id;
        problem_id = s.problem_id;
        problem_label = label s.problem_id;
        problem_title = title s.problem_id;
        username = s.username;
        language = display_name_versioned (from_db s.language) v.lang_versions;
        verdict = verdict;
        badge_class = badge_class;
        time_used_ms = Option.map to_u64 s.time_used_ms;
        memory_used_kb = Option.map to_u64 s.memory_used_kb;
        tc_summary = and_then s.testcase_results (tc_summary_from_json v.json);
        score = Option.map (format_score v.floats) s.score;
      }

  abbrev pub title_of : String → String
  title_of problem_id =
      unwrap_or (map_get problem_id (title_map (load_all v.fs v.problems_dir))) problem_id

  abbrev pub label_of : List ContestProblem → String → String
  label_of cps problem_id = unwrap_or (map_get problem_id (label_map cps)) problem_id

  abbrev pub items : List ContestProblem → List SubmissionListRow → List SubmissionListItem
  items cps rows = map (item_of (label_of cps) title_of) rows

  module _ (contest_id : String) (page : Option ℤ) where
    abbrev pub page_at :
        Contest → List SubmissionListItem → (current total : ℕ) → Option String → Response
    page_at contest submissions current total name = listing (record {
      contest = some (contest_id, contest.title);
      is_restricted = false;
      is_heuristic = is_heuristic contest.judge_type;
      submissions = submissions;
      current_page = current;
      total_pages = total;
      pagination = build_pagination current total;
      current_user = name;
    })

    abbrev pub restricted_page : Contest → Option String → Listing
    restricted_page contest name = record {
      contest = some (contest_id, contest.title);
      is_restricted = true;
      is_heuristic = is_heuristic contest.judge_type;
      submissions = [];
      current_page = 1;
      total_pages = 1;
      pagination = [];
      current_user = name;
    }

    abbrev pub restricted : Contest → Option String → Response
    restricted contest name = listing (restricted_page contest name)

    unfoldable pub all_pages : Contest → ℕ → Handler
    unfolding item_of with_username
    all_pages contest total =
        let pages = total_pages total in
        let current = page_of page pages in
        with_db failure (list_for_contest contest_id current per_page) λ rows.
          with_db failure (problems_for_contest contest_id)
            λ cps. for_user (page_at contest (items cps rows) current pages)

    unfoldable pub listed : Contest → ContestStatus → Handler
    unfolding all_pages with_username
    listed contest ongoing = for_user (restricted contest)
    listed contest _ = with_db failure (count_for_contest contest_id) (all_pages contest)

    -- Whether all submissions are listed is tested by the second reading of the clock.
    unfoldable pub contest_submissions_index : Handler
    unfolding with_contest listed
    contest_submissions_index =
        with_contest v contest_id (under v contest_id "/submissions")
          (λ contest. listed contest (status contest v.second_reading))

    unfoldable pub own_pages : Contest → Option String → List ContestProblem → Uuid → ℕ → Handler
    unfolding item_of
    own_pages contest name cps uid total =
        let pages = total_pages total in
        let current = page_of page pages in
        with_db failure (list_for_contest_by_user contest_id uid current per_page)
          λ rows w. (page_at contest (items cps rows) current pages name, w)

    unfoldable pub own_listed :
        Contest → Option String → List ContestProblem → Option Uuid → Handler
    unfolding own_pages
    own_listed contest name cps none w = (page_at contest [] 1 1 name, w)
    own_listed contest name cps (some uid) w =
        with_db failure (count_for_contest_by_user contest_id uid) (own_pages contest name cps uid)
          w

    abbrev pub own_named : Contest → Option String → Handler
    own_named contest name =
        with_db failure (problems_for_contest contest_id)
          λ cps w. own_listed contest name cps (current_user_id w.session) w

    unfoldable pub contest_submissions_my : Handler
    unfolding with_contest with_username own_listed
    contest_submissions_my =
        with_contest v contest_id (under v contest_id "/submissions/my")
          λ contest w. with_username (own_named contest) (current_user_id w.session) w

  abbrev pub recent_page : List SubmissionListRow → Option String → Response
  recent_page rows name = listing (record {
    contest = none;
    is_restricted = false;
    is_heuristic = false;
    submissions = map (item_of (λ id. "") title_of) rows;
    current_page = 0;
    total_pages = 0;
    pagination = [];
    current_user = name;
  })

  unfoldable pub submissions_index : Handler
  unfolding item_of with_username
  submissions_index = with_db failure (list_recent 50) λ rows. for_user (recent_page rows)
