-- ===== src/Api/Pages.antt =====
-- The pages of src/api/handlers.rs that only show: the start page, the lists of contests, languages
-- and problems, a problem outside the contests, and the forms for registering and logging in.
use mikan_judge.Prelude.{
  ℕ, suc, ◌+◌, ◌*◌, String, Option, none, List, [], ◌∷◌, format, length, false,
}
use mikan_judge.Prelude.Outcome.{Outcome, ok, err, panic, out_of_fuel}
use mikan_judge.Types.Language.{LanguageVersions}
use mikan_judge.Types.Contest.{DateTime, Contest, status, label, badge_class}
use mikan_judge.Problem.{Problem, load_one, load_all}
use mikan_judge.Db.Contest.{ContestLists, list_grouped}
use mikan_judge.Api.{
  Response, contest_list, guide, problems, problem_page, form, failure, aborted, Handler, with_db,
}
use mikan_judge.Api.Contexts.{ContestItem, LanguageGuideItem}
use mikan_judge.Api.Sessions.{current_user_id}
use mikan_judge.Api.Views.{Viewing, with_username}
use mikan_judge.Api.Contests.{for_user, build_lang_labels, with_default_language}

-- What chrono gives: an instant printed by a pattern, so many seconds east of Greenwich; and what the
-- clock reads, for the groups of the contests and then, item for item, for their labels.
pub record Calendar : Type 0 where
  pub print_at : (east : ℕ) (pattern : String) → DateTime → String
  pub grouping : ℕ → DateTime
  pub labelling : ℕ → DateTime

module _ (calendar : Calendar) where
  unfoldable pub fmt_jst : DateTime → String
  fmt_jst dt = calendar.print_at (9 * 3600) "%Y/%m/%d %H:%M" dt

  unfoldable pub to_contest_item : (now : DateTime) → Contest → ContestItem
  unfolding fmt_jst
  to_contest_item now c = record {
    id = c.id;
    title = c.title;
    description = c.description;
    start_time = fmt_jst c.start_time;
    end_time = fmt_jst c.end_time;
    status_label = label (status c now);
    status_class = badge_class (status c now);
  }

  -- The items of a list, the first with the reading `i`.
  unfoldable pub items_from : ℕ → List Contest → List ContestItem
  unfolding to_contest_item
  items_from i [] = []
  items_from i (c ∷ cs) = to_contest_item (calendar.labelling i) c ∷ items_from (suc i) cs

  abbrev pub start_page : ContestLists → Option String → Response
  start_page lists name = contest_list "index.html" (items_from 0 lists.ongoing) [] [] name

  unfoldable pub index : Handler
  unfolding items_from with_username
  index = with_db failure (list_grouped calendar.grouping) λ lists. for_user (start_page lists)

  abbrev pub contests_page : ContestLists → Option String → Response
  contests_page lists name =
      let past_from = length lists.ongoing + length lists.upcoming in
      contest_list "contests/list.html" (items_from 0 lists.ongoing)
        (items_from (length lists.ongoing) lists.upcoming) (items_from past_from lists.past) name

  unfoldable pub contests_index : Handler
  unfolding items_from with_username
  contests_index =
      with_db failure (list_grouped calendar.grouping) λ lists. for_user (contests_page lists)

unfoldable pub build_language_guide_items : LanguageVersions → List LanguageGuideItem
build_language_guide_items versions =
    (record {
      name = "C++17";
      version = format ("GCC " ∷ versions.cpp ∷ []);
      source_file = "solution.cpp";
      compile_command = "g++ solution.cpp -o solution -O2 -std=c++17";
      run_command = "./solution";
      libraries = "標準ライブラリのみ";
      notes = "通常のネイティブ実行です。";
    })
    ∷ (record {
      name = "Rust";
      version = format ("rustc " ∷ versions.rust ∷ []);
      source_file = "solution.rs";
      compile_command = "rustc solution.rs -o solution -C opt-level=2";
      run_command = "./solution";
      libraries = "標準ライブラリのみ";
      notes = "Cargo は使わず、単一ファイルを rustc で直接コンパイルします。";
    })
    ∷ (record {
      name = "Python (CPython)";
      version = versions.python;
      source_file = "solution.py";
      compile_command = "python3 -m py_compile solution.py";
      run_command = "python3 solution.py";
      libraries = "標準ライブラリのみ";
      notes = "提出前に構文チェックだけ行います。";
    })
    ∷ (record {
      name = "Python (PyPy)";
      version = versions.pypy;
      source_file = "solution.py";
      compile_command = "pypy3 -m py_compile solution.py";
      run_command = "pypy3 solution.py";
      libraries = "標準ライブラリのみ";
      notes = "提出前に構文チェックだけ行います。";
    })
    ∷ (record {
      name = "Java";
      version = format ("OpenJDK " ∷ versions.java ∷ []);
      source_file = "Main.java";
      compile_command = "javac -encoding UTF-8 Main.java";
      run_command = "java -cp <work_dir> Main";
      libraries = "標準ライブラリのみ";
      notes = "クラス名は Main で固定です。";
    })
    ∷ (record {
      name = "Go";
      version = versions.go;
      source_file = "solution.go";
      compile_command = "go build -o solution solution.go";
      run_command = "./solution";
      libraries = "標準ライブラリのみ";
      notes = "単一ファイルを go build でビルドします。";
    })
    ∷ (record {
      name = "Text";
      version = format ("cat " ∷ versions.text ∷ []);
      source_file = "solution.txt";
      compile_command = "なし";
      run_command = "cat";
      libraries = "なし";
      notes = "ソースコードは使わず、標準入力をそのまま標準出力に返します。";
    })
    ∷ []

unfoldable pub languages : LanguageVersions → Handler
unfolding build_language_guide_items with_username
languages versions = for_user (guide (build_language_guide_items versions))

abbrev pub blank_form : (template : String) → Handler
blank_form template = for_user λ name. form template name none none false

unfoldable pub register_form : Handler
unfolding with_username
register_form = blank_form "auth/register.html"

unfoldable pub login_form : Handler
unfolding with_username
login_form = blank_form "auth/login.html"

module _ (v : Viewing) where
  unfoldable pub problems_index : Handler
  unfolding with_username
  problems_index = for_user (problems (load_all v.fs v.problems_dir))

  abbrev pub alone : Problem → Option String → Handler
  alone prob default_language = for_user λ name. problem_page (record {
    contest = none;
    problem = prob;
    problem_label = none;
    lang_labels = build_lang_labels v.lang_versions;
    current_user = name;
    cooldown_remaining_ms = none;
    default_language = default_language;
  })

  unfoldable pub problem_found : String → Outcome Problem → Handler
  unfolding with_default_language with_username build_lang_labels
  problem_found id (ok prob) w = with_default_language (alone prob) (current_user_id w.session) w
  problem_found id (err e) w = (failure (format ("problem '" ∷ id ∷ "' not found" ∷ [])), w)
  problem_found id panic w = (aborted, w)
  problem_found id out_of_fuel w = (aborted, w)

  unfoldable pub problems_detail : String → Handler
  unfolding problem_found
  problems_detail id = problem_found id (load_one v.fs v.problems_dir id)
