-- ===== src/Sandbox/Wait.antt =====
-- The parent's wait for the child: the loop of `parent_collect`, `parse_wait_status` and
-- `determine_status` of src/sandbox/runner.rs.
pub mod Loop
pub mod Verdict
use mikan_judge.Prelude.{
  ℕ, zero, suc, ◌+◌, Bool, true, false, Option, none, some, ◌||◌, ltb, leb, eqb, if◌then◌else◌,
}
use mikan_judge.Prelude.Int.{ℤ, pos}
use mikan_judge.Sandbox.{
  Duration, from_millis, RunStatus, finished, time_limit_exceeded, runtime_error, killed,
}

-- A signal by its number on Linux.
abbrev pub Signal : Type 0
Signal = ℕ

abbrev pub sigkill : Signal
sigkill = 9

abbrev pub sigxcpu : Signal
sigxcpu = 24

pub data WaitStatus : Type 0 where
  exited : (pid : ℕ) (code : ℤ) → WaitStatus
  signaled : (pid : ℕ) (sig : Signal) → WaitStatus
  still_alive : WaitStatus

-- The macros of libc on a raw status, and nix's `Signal::try_from`.
pub record StatusMacros : Type 0 where
  pub wifexited : ℕ → Bool
  pub wexitstatus : ℕ → ℤ
  pub wifsignaled : ℕ → Bool
  pub wtermsig : ℕ → ℕ
  pub signal_try_from : ℕ → Option Signal

unfoldable pub parse_wait_status : StatusMacros → ℕ → ℕ → WaitStatus
parse_wait_status m pid raw =
    if m.wifexited raw
    then exited pid (m.wexitstatus raw)
    else if m.wifsignaled raw
    then signaled pid
        (elim (m.signal_try_from (m.wtermsig raw)) [ none ↦ sigkill | some sig ↦ sig ])
    else still_alive

is_zero : ℤ → Bool
is_zero (pos zero) = true
is_zero _ = false

status_of : Option WaitStatus → Option ℤ × RunStatus
status_of (some (exited _ code)) =
    if is_zero code then (some code, finished) else (some code, runtime_error)
status_of (some (signaled _ sig)) =
    if eqb sig sigxcpu then (none, time_limit_exceeded) else (none, killed)
status_of _ = (none, runtime_error)

unfoldable pub determine_status :
    Bool → Duration → Duration → Option WaitStatus → Option ℤ × RunStatus
unfolding status_of is_zero
determine_status was_killed time_used time_limit final_status =
    if was_killed || ltb (time_limit + from_millis 50) time_used
    then (none, time_limit_exceeded)
    else status_of final_status

-- The return of one `wait4(child, …, WNOHANG)`: the child with its raw status and `ru_maxrss`, zero
-- (the child runs on) with the clock that is read next, or an error.
pub data Poll : Type 0 where
  reaped : (raw maxrss : ℕ) → Poll
  alive : (now : ℕ) → Poll
  failed : Poll

pub record Waited : Type 0 where
  pub final_status : Option WaitStatus
  pub maxrss : ℕ
  pub was_killed : Bool

module _ (m : StatusMacros) (child deadline : ℕ) where
  -- The wait with no `WNOHANG` after the kill; `none` where it does not return the child.
  after_kill : Option (ℕ × ℕ) → Waited
  after_kill none = record { final_status = none; maxrss = 0; was_killed = true }
  after_kill (some (raw, maxrss)) = record {
    final_status = some (parse_wait_status m child raw);
    maxrss = maxrss;
    was_killed = true;
  }

  -- The loop from poll `i` on. `none` means that the fuel ran out while the child was alive.
  unfoldable pub wait_loop : (polls : ℕ → Poll) → Option (ℕ × ℕ) → ℕ → ℕ → Option Waited
  unfolding after_kill parse_wait_status
  wait_loop polls last zero i = none
  wait_loop polls last (suc fuel) i =
      let again = wait_loop polls last fuel (suc i) in
      elim (polls i) [
        | reaped raw maxrss ↦ some (record {
          final_status = some (parse_wait_status m child raw);
          maxrss = maxrss;
          was_killed = false;
        })
        | alive now ↦ if leb deadline now then some (after_kill last) else again
        | failed ↦ some (record { final_status = none; maxrss = 0; was_killed = false })
      ]
