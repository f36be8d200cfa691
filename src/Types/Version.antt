-- ===== src/Types/Version.antt =====
-- Detection of the compilers' versions: `detect`, `detect_text_version`, `detect_version` and
-- `parse_version` of src/types.rs. Running a command is the argument `run`: the two outputs of the
-- process, or `none` where it cannot be started.

use mikan_judge.Prelude.{
  ℕ, String, Option, none, some, List, [], ◌∷◌, ◌==◌, trim, lines, split_whitespace, contains, find,
  get_elem?, last?, unwrap_or, and_then, if◌then◌else◌,
}
use mikan_judge.Types.Language.{LanguageVersions}

-- `trim_start_matches("go")`: the prefix is taken off as often as it stands at the front.
trim_go : String → String
trim_go (String.◌∷◌ c (String.◌∷◌ d s)) =
    let rest = trim_go s in
    if String.◌∷◌ c (String.◌∷◌ d String.[]) == "go" then rest else String.◌∷◌ c (String.◌∷◌ d s)
trim_go s = s

abbrev first_line : String → String
first_line raw = unwrap_or (get_elem? (lines raw) 0) raw

abbrev word_or_raw : ℕ → String → String
word_or_raw n raw = unwrap_or (get_elem? (split_whitespace (first_line raw)) n) (trim raw)

abbrev last_or_raw : String → String
last_or_raw raw = unwrap_or (last? (split_whitespace (first_line raw))) (trim raw)

unfoldable pub parse_version : String → String → String
unfolding lines split_whitespace trim contains trim_go
parse_version cmd raw =
    if cmd == "python3"
    then word_or_raw 1 raw
    else if cmd == "pypy3"
    then unwrap_or
        (and_then (find (λ line. contains line "[PyPy ") (lines raw))
          (λ line. get_elem? (split_whitespace line) 1))
        (trim (first_line raw))
    else if cmd == "rustc"
    then word_or_raw 1 raw
    else if cmd == "javac"
    then word_or_raw 1 raw
    else if cmd == "go"
    then trim_go (word_or_raw 2 raw)
    else if cmd == "cat"
    then last_or_raw raw
    else if cmd == "g++"
    then last_or_raw raw
    else trim (first_line raw)

pub record CommandText : Type 0 where
  pub stdout : String
  pub stderr : String

module _ (run : String → List String → Option CommandText) where
  unfoldable pub detect_version : String → List String → Option String
  unfolding parse_version
  detect_version cmd args =
      and_then (run cmd args)
        (λ out. some (parse_version cmd (if out.stdout == "" then out.stderr else out.stdout)))

  unfoldable pub detect_text_version : Option String
  unfolding detect_version
  detect_text_version = elim (detect_version "cat" ("--version" ∷ [])) [
    | some version ↦ some version
    | none ↦ detect_version "gcat" ("--version" ∷ [])
  ]

  unfoldable pub detect : LanguageVersions
  unfolding detect_version detect_text_version
  detect = record {
    cpp = unwrap_or (detect_version "g++" ("--version" ∷ [])) "?";
    rust = unwrap_or (detect_version "rustc" ("--version" ∷ [])) "?";
    python = unwrap_or (detect_version "python3" ("--version" ∷ [])) "?";
    pypy = unwrap_or (detect_version "pypy3" ("--version" ∷ [])) "?";
    java = unwrap_or (detect_version "javac" ("--version" ∷ [])) "?";
    go = unwrap_or (detect_version "go" ("version" ∷ [])) "?";
    text = unwrap_or detect_text_version "unknown";
  }
