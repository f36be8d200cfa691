-- ===== src/Sandbox/Wait/Verdict.antt =====
-- When `determine_status` of src/sandbox/runner.rs lets a run pass.
use mikan_judge.Prelude.{
  ℕ, zero, suc, ◌+◌, ◌≤◌, ◌≡◌, ◌↔◌, ◌⊎◌, Bool, false, true, Option, none, some, arith,
}
use mikan_judge.Prelude.Int.{ℤ, pos, negsuc}
use mikan_judge.Sandbox.{Duration, from_millis, finished, time_limit_exceeded}
use mikan_judge.Sandbox.Wait.{WaitStatus, exited, signaled, still_alive, sigxcpu, determine_status}

abbrev pub exit_code_of : Option WaitStatus → Option ℤ
exit_code_of (some (exited _ code)) = some code
exit_code_of _ = none

abbrev pub signal_of : Option WaitStatus → Option ℕ
signal_of (some (signaled _ sig)) = some sig
signal_of _ = none

-- A run counts as finished exactly when it was not killed, took at most 50 ms more than the limit,
-- and the process exited with code 0.
pub determine_status-finished_iff :
    (k : Bool) (used limit : Duration) (fs : Option WaitStatus)
    → ((determine_status k used limit fs).1 ≡ finished)
      ↔ ((k ≡ false) × (used ≤ limit + from_millis 50) × (exit_code_of fs ≡ some (pos 0)))
unfolding determine_status
determine_status-finished_iff k used limit none = ground arith
determine_status-finished_iff k used limit (some (exited pid (pos zero))) = ground arith
determine_status-finished_iff k used limit (some (exited pid (pos (suc n)))) = ground arith
determine_status-finished_iff k used limit (some (exited pid (negsuc n))) = ground arith
determine_status-finished_iff k used limit (some (signaled pid sig)) = ground arith
determine_status-finished_iff k used limit (some still_alive) = ground arith

-- A run counts as over the time limit exactly when it was killed at the deadline, took more than
-- 50 ms over the limit, or was ended by SIGXCPU.
pub determine_status-tle_iff :
    (k : Bool) (used limit : Duration) (fs : Option WaitStatus)
    → ((determine_status k used limit fs).1 ≡ time_limit_exceeded)
      ↔ ((k ≡ true) ⊎ (suc (limit + from_millis 50) ≤ used) ⊎ (signal_of fs ≡ some sigxcpu))
unfolding determine_status
determine_status-tle_iff k used limit none = ground arith
determine_status-tle_iff k used limit (some (exited pid (pos zero))) = ground arith
determine_status-tle_iff k used limit (some (exited pid (pos (suc n)))) = ground arith
determine_status-tle_iff k used limit (some (exited pid (negsuc n))) = ground arith
determine_status-tle_iff k used limit (some (signaled pid sig)) = ground arith
determine_status-tle_iff k used limit (some still_alive) = ground arith

pub determine_status-exit_code :
    (k : Bool) (used limit : Duration) (fs : Option WaitStatus)
    → (determine_status k used limit fs).1 ≡ finished
    → (determine_status k used limit fs).0 ≡ some (pos 0)
unfolding determine_status
determine_status-exit_code k used limit none h = ground arith
determine_status-exit_code k used limit (some (exited pid (pos zero))) h = ground arith
determine_status-exit_code k used limit (some (exited pid (pos (suc n)))) h = ground arith
determine_status-exit_code k used limit (some (exited pid (negsuc n))) h = ground arith
determine_status-exit_code k used limit (some (signaled pid sig)) h = ground arith
determine_status-exit_code k used limit (some still_alive) h = ground arith
