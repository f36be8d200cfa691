-- ===== src/Sandbox/Compile.antt =====
-- `compile` and `resolve_command` of src/sandbox/mod.rs, in the build for Linux. The file system,
-- the search path and the runs of a command are the argument `System`; paths are valid UTF-8.
pub mod Total
use mikan_judge.Prelude.{
  ℕ, String, Bool, true, false, Option, none, some, List, [], ◌∷◌, map, trim, filter_by, format,
  if◌then◌else◌,
}
use mikan_judge.Prelude.Outcome.{Outcome, ok, err, or_panic, ◌>>=◌, ◌>>◌}
use mikan_judge.Types.Language.{
  Language, text, java, is_interpreted, interpreter, compiler, compile_args, source_file_name,
}
use mikan_judge.Sandbox.{FilePath, CompileOutput}

pub record Output : Type 0 where
  pub success : Bool
  pub stdout : String
  pub stderr : String

-- A run of a command under `timeout`.
pub data TimedRun : Type 0 where
  timed_out : TimedRun
  not_started : (message : String) → TimedRun
  done : Output → TimedRun

pub record System : Type 0 where
  pub write_file : FilePath → String → Outcome (Unit {0})
  -- the folders of `PATH`, if it is set
  pub path_var : Option (List FilePath)
  pub is_file : FilePath → Bool
  pub run : FilePath → List String → Outcome Output
  pub run_timed : (seconds : ℕ) → FilePath → List String → TimedRun

abbrev pub join : FilePath → String → FilePath
join dir name = format (dir ∷ "/" ∷ name ∷ [])

abbrev pub is_text : Language → Bool
is_text text = true
is_text _ = false

abbrev pub is_java : Language → Bool
is_java java = true
is_java _ = false

abbrev compiler_timeout : String
compiler_timeout = "コンパイルが30秒でタイムアウトしました"

abbrev compiler_missing : String
compiler_missing = "コンパイラの起動に失敗しました: "

module _ (sys : System) where
  which : String → Outcome FilePath
  which name = do
    out ← sys.run "which" (name ∷ [])
    if out.success
        then ok (trim out.stdout)
        else err (format ("command '" ∷ name ∷ "' not found in PATH" ∷ []))

  first_or_which : String → List FilePath → Outcome FilePath
  first_or_which name (found ∷ _) = ok found
  first_or_which name [] = which name

  resolve_in : String → Option (List FilePath) → Outcome FilePath
  resolve_in name none = err "PATH is not set"
  resolve_in name (some dirs) =
      first_or_which name (filter_by sys.is_file (map (λ dir. join dir name) dirs))

  unfoldable pub resolve_command : String → Outcome FilePath
  unfolding resolve_in first_or_which which
  resolve_command name = resolve_in name sys.path_var

  syntax_checked : FilePath → FilePath → TimedRun → CompileOutput
  syntax_checked interp src_path timed_out = record {
    executable = interp;
    run_args = src_path ∷ [];
    error = some "構文チェックがタイムアウトしました";
    warnings = "";
  }
  syntax_checked interp src_path (not_started e) = record {
    executable = interp;
    run_args = src_path ∷ [];
    error = some (format ("インタプリタの起動に失敗しました: " ∷ e ∷ []));
    warnings = "";
  }
  syntax_checked interp src_path (done out) = record {
    executable = interp;
    run_args = src_path ∷ [];
    error = if out.success then none else some out.stderr;
    warnings = if out.success then out.stderr else "";
  }

  compile_interpreted : Language → FilePath → Outcome CompileOutput
  unfolding syntax_checked
  compile_interpreted language src_path = do
    interp ← or_panic (interpreter language)
    interp_path ← resolve_command interp
    ok (
        syntax_checked interp_path src_path
          (sys.run_timed 10 interp_path ("-m" ∷ "py_compile" ∷ src_path ∷ [])))

  java_compiled : FilePath → TimedRun → Outcome CompileOutput
  java_compiled work_dir timed_out = err compiler_timeout
  java_compiled work_dir (not_started e) = err (format (compiler_missing ∷ e ∷ []))
  java_compiled work_dir (done out) = do
    executable ← resolve_command "java"
    ok (
        if out.success
        then record {
          executable = executable;
          run_args = "-cp" ∷ work_dir ∷ "Main" ∷ [];
          error = none;
          warnings = out.stderr;
        }
        else record {
          executable = executable;
          run_args = [];
          error = some out.stderr;
          warnings = "";
        })

  compile_java : Language → FilePath → FilePath → Outcome CompileOutput
  unfolding java_compiled
  compile_java language work_dir src_path = do
    name ← or_panic (compiler language)
    compiler_path ← resolve_command name
    args ← or_panic (compile_args language src_path "")
    java_compiled work_dir (sys.run_timed 30 compiler_path args)

  native_compiled : FilePath → TimedRun → Outcome CompileOutput
  native_compiled output_path timed_out = err compiler_timeout
  native_compiled output_path (not_started e) = err (format (compiler_missing ∷ e ∷ []))
  native_compiled output_path (done out) = ok (
      if out.success
      then record { executable = output_path; run_args = []; error = none; warnings = out.stderr }
      else record {
        executable = output_path;
        run_args = [];
        error = some out.stderr;
        warnings = "";
      })

  compile_native : Language → FilePath → FilePath → Outcome CompileOutput
  unfolding native_compiled
  compile_native language work_dir src_path = do
    name ← or_panic (compiler language)
    compiler_path ← resolve_command name
    let output_path = join work_dir "solution"
    args ← or_panic (compile_args language src_path output_path)
    native_compiled output_path (sys.run_timed 30 compiler_path args)

  compile_text : Outcome CompileOutput
  compile_text = do
    executable ← resolve_command "cat"
    ok (record { executable = executable; run_args = []; error = none; warnings = "" })

  unfoldable pub compile : String → Language → FilePath → Outcome CompileOutput
  unfolding compile_text compile_interpreted compile_java compile_native
  compile source_code language work_dir = do
    let src_path = join work_dir (source_file_name language)
    sys.write_file src_path source_code
    if is_text language
        then compile_text
        else if is_interpreted language
        then compile_interpreted language src_path
        else if is_java language
        then compile_java language work_dir src_path
        else compile_native language work_dir src_path
