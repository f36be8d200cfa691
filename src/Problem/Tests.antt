-- ===== src/Problem/Tests.antt =====
-- A small folder of problems, and the theorem about reading one at it.
use mikan_judge.Prelude.{
  ◌≡◌, refl, String, none, some, List, [], ◌∷◌, ◌==◌, format, sort_by, text_leb, if◌then◌else◌,
}
use mikan_judge.Prelude.Outcome.{Outcome, ok, err}
use mikan_judge.Sandbox.{FilePath}
use mikan_judge.Sandbox.Compile.{join}
use mikan_judge.Problem.{
  FileSystem, Problem, load_one, load_all, load_testcases, load_testcase, with_defaults,
  split_extension, stem_of, expected_of,
}
use mikan_judge.Problem.Testcases.{MadeOf, load_one-MadeOf}

abbrev read : FilePath → Outcome String
read path =
    if path == "/p/a/meta.toml"
    then ok "toml"
    else if path == "/p/a/statement.md"
    then ok "md"
    else if path == "/p/a/testcases/1.in"
    then ok "1 2"
    else if path == "/p/a/testcases/1.out"
    then ok "3"
    else if path == "/p/a/testcases/2.in"
    then ok "2 2"
    else err "no such file"

abbrev names : FilePath → List String
names dir = if dir == "/p" then "a" ∷ [] else "2.in" ∷ "1.out" ∷ "1.in" ∷ "note.txt" ∷ []

abbrev pub files : FileSystem
files = record {
  read_dir = λ dir. some (names dir);
  read_to_string = read;
  is_dir = λ dir. dir == "/p/a";
  exists = λ path. path == "/p/a/testcases/1.out";
  join_path = join;
  parse_meta = λ text.
      ok
        (record { title = "A+B"; time_limit_ms = none; memory_limit_kb = some 1024; score = none });
  markdown_to_html = λ md. md;
}

abbrev pub problem_a : Problem
problem_a = record {
  id = "a";
  title = "A+B";
  time_limit_ms = 2000;
  memory_limit_kb = 1024;
  score = 100;
  html_content = "md";
  testcases =
      (record { input = "1 2"; expected = some "3" })
      ∷ (record { input = "2 2"; expected = none })
      ∷ [];
  scorer_path = none;
}

pub load_one_a : load_one files "/p" "a" ≡ ok problem_a
unfolding load_one load_testcases load_testcase with_defaults split_extension stem_of expected_of
    format sort_by text_leb
load_one_a = refl

load_all_a : load_all files "/p" ≡ problem_a ∷ []
unfolding load_all load_one load_testcases load_testcase with_defaults split_extension stem_of
    expected_of format sort_by text_leb
load_all_a = refl

load_one-MadeOf_example : MadeOf files "/p" "a" problem_a
load_one-MadeOf_example = load_one-MadeOf files "/p" "a" problem_a load_one_a
