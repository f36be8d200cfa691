-- ===== src/Api/Contests.antt =====
-- The pages of a contest in src/api/handlers.rs: what they begin with, its overview and its problems.
pub mod Begun
use mathlib.Core.Option
use mikan_judge.Prelude.{
  ℕ, String, Bool, Option, none, some, List, [], ◌∷◌, ◌==◌, map, find, filter_map, and_then, format,
}
use mikan_judge.Prelude.Int.{ℤ}
use mikan_judge.Prelude.Outcome.{Outcome, ok, err, panic, out_of_fuel}
use mikan_judge.Types.Language.{
  Language, LanguageVersions, cpp, rust, python, pypy, java, go, text, to_db,
  display_name_versioned,
}
use mikan_judge.Types.Contest.{
  DateTime, Contest, ContestProblem, ContestStatus, upcoming, ongoing, past, status,
}
use mikan_judge.Types.Records.{Uuid, User}
use mikan_judge.Problem.{Problem, success, load_one}
use mikan_judge.Db.Contest.{problems_for_contest}
use mikan_judge.Db.Contest
use mikan_judge.Db.Users.{find_by_id}
use mikan_judge.Api.{
  Response, locked, redirect, problem_list, problem_page, failure, aborted, World, Handler, with_db,
}
use mikan_judge.Api.Contexts.{ProblemItem, ProblemPage}
use mikan_judge.Api.Sessions.{current_user_id}
use mikan_judge.Api.Views.{Viewing, with_username}

-- `render_contest_locked`
abbrev pub render_contest_locked : Contest → (target_path : String) → Handler
render_contest_locked contest target_path w =
    with_username (λ name w'. (locked contest target_path name, w')) (current_user_id w.session) w

-- `current_username` where its value goes into the page.
abbrev pub for_user : (Option String → Response) → Handler
for_user page w = with_username (λ name w'. (page name, w')) (current_user_id w.session) w

abbrev labelled : LanguageVersions → Language → String × String
labelled versions l = (to_db l, display_name_versioned l versions)

unfoldable pub build_lang_labels : LanguageVersions → List (String × String)
build_lang_labels versions =
    map (labelled versions) (cpp ∷ rust ∷ python ∷ pypy ∷ java ∷ go ∷ text ∷ [])

default_in : Outcome (Option User) → Option String
default_in (ok (some u)) = u.default_language
default_in _ = none

-- The default language of the user who is logged in; an error reads as none.
unfoldable pub with_default_language : (Option String → Handler) → Option Uuid → Handler
unfolding default_in
with_default_language k none w = k none w
with_default_language k (some id) w =
    let (r, db') = find_by_id id w.db in k (default_in r) (record w { db = db' })

module _ (v : Viewing) (contest_id : String) where
  module _ (target_path : String) (next : Contest → Handler) where
    unfoldable pub begun : Contest → ContestStatus → Handler
    unfolding with_username
    begun contest upcoming w = render_contest_locked contest target_path w
    begun contest _ w = next contest w

    unfoldable pub known : Option Contest → Handler
    unfolding begun
    known none w = (failure "contest not found", w)
    known (some contest) w = begun contest (status contest v.first_reading) w

    -- What every page of a contest begins with.
    unfoldable pub with_contest : Handler
    unfolding known
    with_contest w = with_db failure (Contest.get_by_id contest_id) known w

  abbrev pub under : String → String
  under rest = format ("/contests/" ∷ contest_id ∷ rest ∷ [])

  unfoldable pub contest_detail : Handler
  unfolding with_contest
  contest_detail = with_contest (under "/problems") λ contest w. (redirect (under "/problems"), w)

  abbrev pub problem_item : ContestProblem → Problem → ProblemItem
  problem_item cp prob = record {
    label = cp.label;
    id = prob.id;
    title = prob.title;
    score = prob.score;
    time_limit_ms = prob.time_limit_ms;
    memory_limit_kb = prob.memory_limit_kb;
  }

  abbrev pub item_in : ContestProblem → Option ProblemItem
  item_in cp = Option.map (problem_item cp) (success (load_one v.fs v.problems_dir cp.problem_id))

  unfoldable pub contest_problems_index : Handler
  unfolding with_contest with_username
  contest_problems_index = with_contest (under "/problems") λ contest.
      with_db failure (problems_for_contest contest_id)
        λ cps. for_user (problem_list contest_id contest.title (filter_map item_in cps))

  module _ (problem_id : String) (cooldown_remaining_ms : Option ℤ) where
    unfoldable pub show_problem : Contest → String → Problem → Option String → Handler
    unfolding with_username
    show_problem contest label prob default_language = for_user λ name. problem_page (record {
      contest = some (contest_id, contest.title);
      problem = prob;
      problem_label = some label;
      lang_labels = build_lang_labels v.lang_versions;
      current_user = name;
      cooldown_remaining_ms = cooldown_remaining_ms;
      default_language = default_language;
    })

    unfoldable pub problem_read : Contest → String → Outcome Problem → Handler
    unfolding show_problem with_default_language
    problem_read contest label (ok prob) w =
        with_default_language (show_problem contest label prob) (current_user_id w.session) w
    problem_read contest label (err e) w =
        (failure (format ("problem '" ∷ problem_id ∷ "' not found" ∷ [])), w)
    problem_read contest label panic w = (aborted, w)
    problem_read contest label out_of_fuel w = (aborted, w)

    unfoldable pub label_known : Contest → Option String → Handler
    unfolding problem_read
    label_known contest none w = (failure "problem not in contest", w)
    label_known contest (some label) w =
        problem_read contest label (load_one v.fs v.problems_dir problem_id) w

    unfoldable pub contest_problem_detail : Handler
    unfolding with_contest label_known
    contest_problem_detail = with_contest (format (under "/problems/" ∷ problem_id ∷ [])) λ contest.
        with_db failure (problems_for_contest contest_id) λ cps.
          label_known contest
            (Option.map (λ cp. cp.label) (find (λ cp. cp.problem_id == problem_id) cps))
