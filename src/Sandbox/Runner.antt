-- ===== src/Sandbox/Runner.antt =====
-- `run_sandboxed_blocking` and `parent_collect` of src/sandbox/runner.rs with the cgroup's
-- `memory_peak_bytes`, and `run_in_sandbox` of src/sandbox/mod.rs, in the build for Linux. What the
-- kernel does in one run is the argument `Observed`.
pub mod Limits
use Prim.Native.Char.{code}
use mikan_judge.Prelude.{
  ℕ, ◌+◌, ◌-◌, ◌*◌, ◌^◌, String, Bool, Option, none, some, List, ◌&&◌, min, leb, ltb, eqb, trim,
  unwrap_or, and_then, if◌then◌else◌,
}
use mikan_judge.Prelude.Outcome.{Outcome, ok, out_of_fuel, ◌>>=◌, ◌>>◌}
use mikan_judge.Sandbox.{Duration, from_millis, Bytes, SandboxConfig, RunResult}
use mikan_judge.Sandbox.Pipes.{drain_fd}
use mikan_judge.Sandbox.Wait.{StatusMacros, Poll, Waited, wait_loop, determine_status}

-- `str::parse::<u64>`: an optional "+", then digits whose value fits.
digits_value : ℕ → String → Option ℕ
digits_value n String.[] = some n
digits_value n (String.◌∷◌ c s) =
    let rest = digits_value (n * 10 + (code c - 48)) s in
    if leb 48 (code c) && leb (code c) 57 then rest else none

abbrev fits_u64 : ℕ → Option ℕ
fits_u64 n = if ltb n (2 ^ 64) then some n else none

some_digits : String → Option ℕ
unfolding digits_value
some_digits String.[] = none
some_digits (String.◌∷◌ c s) = and_then (digits_value 0 (String.◌∷◌ c s)) fits_u64

unfoldable pub parse_u64 : String → Option ℕ
unfolding some_digits
parse_u64 String.[] = none
parse_u64 (String.◌∷◌ c s) = if eqb (code c) 43 then some_digits s else some_digits (String.◌∷◌ c s)

pub record Observed : Type 0 where
  -- the three calls of `pipe`, and `fork`
  pub pipes : Outcome (Unit {0})
  pub fork : Outcome ℕ
  -- the clock at the start, the polls of the child, and the wait after a kill
  pub start : ℕ
  pub polls : ℕ → Poll
  pub after_kill : Option (ℕ × ℕ)
  -- the clock's reading behind the loop, since the start
  pub elapsed : Duration
  -- the text of the cgroup's `memory.peak`, if there is a cgroup and the file can be read
  pub memory_peak : Option String
  -- whether each process that holds a writing end of the two output pipes closes it, so that the
  -- threads that read come to the ends and can be joined
  pub drains : Bool
  pub stdout_reads : List Bytes
  pub stderr_reads : List Bytes

abbrev pub u64_max : ℕ
u64_max = 2 ^ 64 - 1

unfoldable pub memory_peak_bytes : Option String → Option ℕ
unfolding parse_u64
memory_peak_bytes file = and_then file (λ raw. parse_u64 (trim raw))

-- `start + config.time_limit + Duration::from_millis(100)`
abbrev pub deadline : Observed → SandboxConfig → ℕ
deadline o config = o.start + config.time_limit + from_millis 100

module _ (m : StatusMacros) (o : Observed) where
  pub collected : SandboxConfig → Waited → RunResult
  unfolding memory_peak_bytes
  collected config w =
      let (exit_code, status) =
        determine_status w.was_killed o.elapsed config.time_limit w.final_status in
      record {
        stdout = drain_fd config.max_output_bytes o.stdout_reads;
        stderr = drain_fd 65_536 o.stderr_reads;
        exit_code = exit_code;
        wall_time_used = o.elapsed;
        memory_used_bytes =
            unwrap_or (memory_peak_bytes o.memory_peak) (min (w.maxrss * 1024) u64_max);
        status = status;
      }

  -- `fuel` bounds the polls; joining the threads on pipes that stay open does not return.
  unfoldable pub parent_collect : ℕ → (child : ℕ) → SandboxConfig → Outcome RunResult
  unfolding collected
  parent_collect fuel child config =
      elim (wait_loop m child (deadline o config) o.polls o.after_kill fuel 0) [
        | none ↦ out_of_fuel
        | some w ↦ if o.drains then ok (collected config w) else out_of_fuel
      ]

  unfoldable pub run_sandboxed : ℕ → SandboxConfig → Outcome RunResult
  unfolding parent_collect
  run_sandboxed fuel config = do o.pipes; child ← o.fork; parent_collect fuel child config
