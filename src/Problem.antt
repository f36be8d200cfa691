-- ===== src/Problem.antt =====
-- problem.rs: reading a problem's folder. `FileSystem` is what the process meets there.
pub mod Testcases
pub mod Tests
use Prim.Native.Char.{code}
use Prim.Native.String
use mikan_judge.Prelude.{
  ℕ, String, Bool, true, false, Option, none, some, List, [], ◌∷◌, ◌==◌, eqb, is_some, unwrap_or,
  filter_by, filter_map, text_leb, sort_by, format, if◌then◌else◌,
}
use mikan_judge.Prelude.Outcome.{Outcome, ok, err, panic, out_of_fuel, ◌>>=◌}
use mikan_judge.Sandbox.{FilePath}
use mikan_judge.Sandbox.Compile.{join}

pub record ProblemMeta : Type 0 where
  pub title : String
  pub time_limit_ms : ℕ
  pub memory_limit_kb : ℕ
  pub score : ℕ

-- The keys of a `meta.toml`, of which all but the title may be missing.
pub record MetaKeys : Type 0 where
  pub title : String
  pub time_limit_ms : Option ℕ
  pub memory_limit_kb : Option ℕ
  pub score : Option ℕ

abbrev pub default_time_limit : ℕ
default_time_limit = 2000

abbrev pub default_memory_limit : ℕ
default_memory_limit = 262_144

abbrev pub default_score : ℕ
default_score = 100

-- The derived `Deserialize`.
unfoldable pub with_defaults : MetaKeys → ProblemMeta
with_defaults keys = record {
  title = keys.title;
  time_limit_ms = unwrap_or keys.time_limit_ms default_time_limit;
  memory_limit_kb = unwrap_or keys.memory_limit_kb default_memory_limit;
  score = unwrap_or keys.score default_score;
}

pub record Testcase : Type 0 where
  pub input : String
  pub expected : Option String

pub record Problem : Type 0 where
  pub id : String
  pub title : String
  pub time_limit_ms : ℕ
  pub memory_limit_kb : ℕ
  pub score : ℕ
  pub html_content : String
  pub testcases : List Testcase
  pub scorer_path : Option FilePath

-- `read_dir` yields the names of the entries that could be read, in any order. `join_path` is
-- `Path::join` on a name that comes from a request; toml and pulldown_cmark are fields too.
pub record FileSystem : Type 0 where
  pub read_dir : FilePath → Option (List String)
  pub read_to_string : FilePath → Outcome String
  pub is_dir : FilePath → Bool
  pub exists : FilePath → Bool
  pub join_path : FilePath → String → FilePath
  pub parse_meta : String → Outcome MetaKeys
  pub markdown_to_html : String → String

-- A file's name in front of its last dot and behind it; a dot at the start does not count.
rsplit_dot : String → Option (String × String)
rsplit_dot String.[] = none
rsplit_dot (String.◌∷◌ c s) = elim (rsplit_dot s) [
  | some (stem, ext) ↦ some (String.◌∷◌ c stem, ext)
  | none ↦ if eqb (code c) 46 then some ("", s) else none
]

visible_stem : Option (String × String) → Option (String × String)
visible_stem none = none
visible_stem (some (stem, ext)) = if stem == "" then none else some (stem, ext)

unfoldable pub split_extension : String → Option (String × String)
unfolding rsplit_dot visible_stem
split_extension name = visible_stem (rsplit_dot name)

-- The stem of a name whose extension is "in".
in_stem : Option (String × String) → Option String
in_stem none = none
in_stem (some (stem, ext)) = if ext == "in" then some stem else none

unfoldable pub stem_of : String → Option String
unfolding split_extension in_stem
stem_of name = in_stem (split_extension name)

abbrev pub success {ℓ} : {A : Type ℓ} → Outcome A → Option A
success (ok a) = some a
success _ = none

module _ (fs : FileSystem) where
  unfoldable pub expected_of : FilePath → Option String
  expected_of out_path = if fs.exists out_path then success (fs.read_to_string out_path) else none

  abbrev pub testcase_from : Option String → Option String → FilePath → Option Testcase
  testcase_from none input out_path = none
  testcase_from (some stem) none out_path = none
  testcase_from (some stem) (some input) out_path =
      some (record { input = input; expected = expected_of out_path })

  -- The case of one ".in" file; a file that cannot be read is passed over.
  unfoldable pub load_testcase : FilePath → String → Option Testcase
  unfolding stem_of
  load_testcase dir name =
      testcase_from (stem_of name) (success (fs.read_to_string (join dir name)))
        (join dir (format (unwrap_or (stem_of name) "" ∷ ".out" ∷ [])))

  abbrev pub in_files : List String → List String
  in_files names = sort_by text_leb (filter_by (λ name. is_some (stem_of name)) names)

  testcases_in : FilePath → Option (List String) → List Testcase
  testcases_in dir none = []
  testcases_in dir (some names) = filter_map (load_testcase dir) (in_files names)

  unfoldable pub load_testcases : FilePath → List Testcase
  unfolding testcases_in
  load_testcases dir = testcases_in dir (fs.read_dir dir)

  abbrev pub scorer_in : FilePath → Option FilePath
  scorer_in dir = let p = join dir "scorer.py" in if fs.exists p then some p else none

  pub problem_of : String → FilePath → ProblemMeta → String → List Testcase → Outcome Problem
  problem_of id dir meta html [] = err (format ("problem '" ∷ id ∷ "' has no test cases" ∷ []))
  problem_of id dir meta html (tc ∷ tcs) = ok (record {
    id = id;
    title = meta.title;
    time_limit_ms = meta.time_limit_ms;
    memory_limit_kb = meta.memory_limit_kb;
    score = meta.score;
    html_content = html;
    testcases = tc ∷ tcs;
    scorer_path = scorer_in dir;
  })

  unfoldable pub load_one : FilePath → String → Outcome Problem
  unfolding with_defaults problem_of
  load_one problems_dir id = do
    let dir = fs.join_path problems_dir id
    toml ← fs.read_to_string (join dir "meta.toml")
    keys ← fs.parse_meta toml
    md ← fs.read_to_string (join dir "statement.md")
    problem_of id dir (with_defaults keys) (fs.markdown_to_html md)
        (load_testcases (join dir "testcases"))

  problems_in : FilePath → Option (List String) → List Problem
  problems_in problems_dir none = []
  problems_in problems_dir (some names) =
      filter_map (λ id. success (load_one problems_dir id))
        (sort_by text_leb (filter_by (λ name. fs.is_dir (join problems_dir name)) names))

  unfoldable pub load_all : FilePath → List Problem
  unfolding problems_in
  load_all problems_dir = problems_in problems_dir (fs.read_dir problems_dir)
