-- ===== src/Sandbox/Compile/Total.antt =====
-- `compile` of src/sandbox/mod.rs always returns, with a result or an error.
use mikan_judge.Prelude.{String, Option, none, some, List, [], ◌∷◌, if◌then◌else◌}
use mikan_judge.Prelude.Outcome.{Outcome, Settles, Settles-bind, Settles-if}
use mikan_judge.Types.Language.{
  Language, cpp, rust, python, pypy, java, go, text, is_interpreted, interpreter, compiler,
  compile_args,
}
use mikan_judge.Sandbox.{FilePath, CompileOutput}
use mikan_judge.Sandbox.Compile.{
  System, TimedRun, timed_out, not_started, done, which, first_or_which, resolve_in,
  resolve_command, compile_interpreted, java_compiled, compile_java, native_compiled,
  compile_native, compile_text, compile, is_text, is_java,
}

-- The system's own calls return, with a result or an error.
pub record IsCalm (sys : System) : Type 0 where
  pub writes : (path content : String) → Settles (sys.write_file path content)
  pub runs : (path : String) (args : List String) → Settles (sys.run path args)

module _ (sys : System) (calm : IsCalm sys) where
  which-Settles : (name : String) → Settles (which sys name)
  unfolding which
  which-Settles name =
      Settles-bind (sys.run "which" (name ∷ [])) _ (calm.runs "which" (name ∷ []))
        (λ out. Settles-if out.success _ _ tt tt)

  first_or_which-Settles :
      (name : String) (found : List FilePath) → Settles (first_or_which sys name found)
  unfolding first_or_which
  first_or_which-Settles name [] = which-Settles name
  first_or_which-Settles name (x ∷ xs) = tt

  pub resolve_command-Settles : (name : String) → Settles (resolve_command sys name)
  unfolding resolve_command
  resolve_command-Settles name = resolve_in-Settles name sys.path_var
    where
      resolve_in-Settles :
          (name : String) (dirs : Option (List FilePath)) → Settles (resolve_in sys name dirs)
      resolve_in-Settles name none = tt
      resolve_in-Settles name (some dirs) = first_or_which-Settles name _

  java_compiled-Settles :
      (work_dir : FilePath) (run : TimedRun) → Settles (java_compiled sys work_dir run)
  unfolding java_compiled
  java_compiled-Settles work_dir timed_out = tt
  java_compiled-Settles work_dir (not_started e) = tt
  java_compiled-Settles work_dir (done out) =
      Settles-bind (resolve_command sys "java") _ (resolve_command-Settles "java") (λ p. tt)

  native_compiled-Settles :
      (output_path : FilePath) (run : TimedRun) → Settles (native_compiled sys output_path run)
  unfolding native_compiled
  native_compiled-Settles output_path timed_out = tt
  native_compiled-Settles output_path (not_started e) = tt
  native_compiled-Settles output_path (done out) = tt

  -- What `compile` does behind the write of the source.
  rest_of : Language → FilePath → FilePath → Outcome CompileOutput
  rest_of language work_dir src_path =
      if is_text language
      then compile_text sys
      else if is_interpreted language
      then compile_interpreted sys language src_path
      else if is_java language
      then compile_java sys language work_dir src_path
      else compile_native sys language work_dir src_path

  rest_of-Settles :
      (l : Language) (work_dir src_path : FilePath) → Settles (rest_of l work_dir src_path)
  unfolding rest_of compile_text compile_interpreted compile_java compile_native is_interpreted
      interpreter compiler compile_args
  rest_of-Settles text work_dir src_path =
      Settles-bind (resolve_command sys "cat") _ (resolve_command-Settles "cat") (λ p. tt)
  rest_of-Settles python work_dir src_path =
      Settles-bind (resolve_command sys "python3") _ (resolve_command-Settles "python3") (λ p. tt)
  rest_of-Settles pypy work_dir src_path =
      Settles-bind (resolve_command sys "pypy3") _ (resolve_command-Settles "pypy3") (λ p. tt)
  rest_of-Settles java work_dir src_path =
      Settles-bind (resolve_command sys "javac") _ (resolve_command-Settles "javac")
        (λ p. java_compiled-Settles work_dir _)
  rest_of-Settles cpp work_dir src_path =
      Settles-bind (resolve_command sys "g++") _ (resolve_command-Settles "g++")
        (λ p. native_compiled-Settles _ _)
  rest_of-Settles rust work_dir src_path =
      Settles-bind (resolve_command sys "rustc") _ (resolve_command-Settles "rustc")
        (λ p. native_compiled-Settles _ _)
  rest_of-Settles go work_dir src_path =
      Settles-bind (resolve_command sys "go") _ (resolve_command-Settles "go")
        (λ p. native_compiled-Settles _ _)

-- Where the system's calls return, `compile` returns too, for every language: it never asks a
-- language for an interpreter, a compiler or arguments that would make it panic.
pub compile-Settles :
    (sys : System) (source_code : String) (l : Language) (work_dir : FilePath)
    → IsCalm sys
    → Settles (compile sys source_code l work_dir)
unfolding compile rest_of
compile-Settles sys source_code l work_dir calm =
    Settles-bind (sys.write_file _ source_code) _ (calm.writes _ source_code)
      (λ u. rest_of-Settles sys calm l work_dir _)
