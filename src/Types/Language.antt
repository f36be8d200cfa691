-- ===== src/Types/Language.antt =====
-- The languages of src/types.rs (`enum Language` and its `impl`). A method that may panic returns
-- an `Option`, where `none` is the panic.
pub mod Database
use mikan_judge.Prelude.{
  String, Bool, true, false, Option, none, some, List, [], ◌∷◌, ◌==◌, format, if◌then◌else◌,
}

pub data Language : Type 0 where
  cpp rust python pypy java go text : Language

unfoldable pub to_db : Language → String
to_db cpp = "cpp"
to_db rust = "rust"
to_db python = "python"
to_db pypy = "pypy"
to_db java = "java"
to_db go = "go"
to_db text = "text"

unfoldable pub from_db : String → Language
from_db s =
    if s == "rust"
    then rust
    else if s == "python"
    then python
    else if s == "pypy"
    then pypy
    else if s == "java"
    then java
    else if s == "go"
    then go
    else if s == "text"
    then text
    else cpp

pub record LanguageVersions : Type 0 where
  pub cpp : String
  pub rust : String
  pub python : String
  pub pypy : String
  pub java : String
  pub go : String
  pub text : String

unfoldable pub display_name_versioned : Language → LanguageVersions → String
display_name_versioned cpp versions = format ("C++17 (GCC " ∷ versions.cpp ∷ ")" ∷ [])
display_name_versioned rust versions = format ("Rust (rustc " ∷ versions.rust ∷ ")" ∷ [])
display_name_versioned python versions = format ("Python (CPython " ∷ versions.python ∷ ")" ∷ [])
display_name_versioned pypy versions = format ("Python (PyPy " ∷ versions.pypy ∷ ")" ∷ [])
display_name_versioned java versions = format ("Java (OpenJDK " ∷ versions.java ∷ ")" ∷ [])
display_name_versioned go versions = format ("Go (" ∷ versions.go ∷ ")" ∷ [])
display_name_versioned text versions = format ("Text (cat " ∷ versions.text ∷ ")" ∷ [])

unfoldable pub is_interpreted : Language → Bool
is_interpreted python = true
is_interpreted pypy = true
is_interpreted _ = false

unfoldable pub needs_unlimited_vm : Language → Bool
needs_unlimited_vm python = true
needs_unlimited_vm pypy = true
needs_unlimited_vm java = true
needs_unlimited_vm go = true
needs_unlimited_vm _ = false

unfoldable pub needs_relaxed_seccomp : Language → Bool
needs_relaxed_seccomp java = true
needs_relaxed_seccomp go = true
needs_relaxed_seccomp text = true
needs_relaxed_seccomp _ = false

unfoldable pub needs_relaxed_nproc : Language → Bool
needs_relaxed_nproc java = true
needs_relaxed_nproc go = true
needs_relaxed_nproc _ = false

unfoldable pub source_file_name : Language → String
source_file_name java = "Main.java"
source_file_name text = "solution.txt"
source_file_name cpp = "solution.cpp"
source_file_name rust = "solution.rs"
source_file_name python = "solution.py"
source_file_name pypy = "solution.py"
source_file_name go = "solution.go"

unfoldable pub interpreter : Language → Option String
interpreter python = some "python3"
interpreter pypy = some "pypy3"
interpreter _ = none

unfoldable pub compiler : Language → Option String
compiler cpp = some "g++"
compiler rust = some "rustc"
compiler java = some "javac"
compiler go = some "go"
compiler _ = none

unfoldable pub compile_args : Language → String → String → Option (List String)
compile_args cpp source output = some (source ∷ "-o" ∷ output ∷ "-O2" ∷ "-std=c++17" ∷ [])
compile_args rust source output = some (source ∷ "-o" ∷ output ∷ "-C" ∷ "opt-level=2" ∷ [])
compile_args java source output = some ("-encoding" ∷ "UTF-8" ∷ source ∷ [])
compile_args go source output = some ("build" ∷ "-o" ∷ output ∷ source ∷ [])
compile_args _ source output = none
