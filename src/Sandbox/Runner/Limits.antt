-- ===== src/Sandbox/Runner/Limits.antt =====
-- What a run in the sandbox of src/sandbox/runner.rs guarantees, and that it ends.
use mikan_judge.Prelude.{
  ℕ, ◌+◌, ◌≤◌, ◌<◌, ◌≡◌, Option-cases, inl, inr, some, take, arith, ◌*◌, ◌/◌, refl, true,
  Bool-cases,
}
use mikan_judge.Prelude.Int.{pos}
use mikan_judge.Prelude.Outcome.{ok, Settles, Settles-bind, >>=-eq-ok}
use mikan_judge.Sandbox.{from_millis, SandboxConfig, finished, RunResult}
use mikan_judge.Sandbox.Pipes.Limits.{drain_fd-eq-take, until_end}
use mikan_judge.Sandbox.Wait.{StatusMacros, Poll, alive, reaped, failed, Waited, wait_loop}
use mikan_judge.Sandbox.Wait.Loop.{Stops, wait_loop_returns}
use mikan_judge.Sandbox.Wait.Verdict.{determine_status-finished_iff, determine_status-exit_code}
use mathlib.Core.Path.{subst}
use mikan_judge.Sandbox.Runner.{Observed, collected, parent_collect, run_sandboxed, deadline}

module _ (m : StatusMacros) (o : Observed) (config : SandboxConfig) where
  -- The run ends: its pipes and its child are made or refused, one of the first `fuel` polls finds
  -- the child gone, the call failed, or the clock at the deadline, and the output pipes are closed.
  pub record Ends (fuel : ℕ) : Type 0 where
    pub pipes : Settles o.pipes
    pub fork : Settles o.fork
    pub last_poll : ℕ
    pub in_fuel : last_poll < fuel
    pub stops : Stops (deadline o config) (o.polls last_poll)
    pub drains : o.drains ≡ true

  parent_collect-Settles :
      (fuel child : ℕ) → Ends fuel → Settles (parent_collect m o fuel child config)
  unfolding parent_collect
  parent_collect-Settles fuel child h =
      let (w, e) =
        wait_loop_returns m child (deadline o config) o.polls o.after_kill h.last_poll fuel 0
          (omega arith) (omega (arith, h.in_fuel)) h.stops in
      rw (e, h.drains, Settles) tt

  pub Ends-Settles : (fuel : ℕ) → Ends fuel → Settles (run_sandboxed m o fuel config)
  unfolding run_sandboxed
  Ends-Settles fuel h =
      Settles-bind o.pipes _ h.pipes
        (λ u. Settles-bind o.fork _ h.fork (λ child. parent_collect-Settles fuel child h))

  -- Each poll but the first comes behind a sleep of 5 ms, and the clock does not go back.
  abbrev pub Sleeps : Type 0
  Sleeps = (i now : ℕ) → o.polls i ≡ alive now → o.start + i * from_millis 5 ≤ now

  -- The first poll that no sleep leaves in front of the deadline.
  abbrev pub polls_needed : ℕ
  polls_needed = (config.time_limit + from_millis 100) / from_millis 5 + 1

  in_time : Sleeps → (p : Poll) → o.polls polls_needed ≡ p → Stops (deadline o config) p
  in_time sleeps (reaped raw maxrss) e = tt
  in_time sleeps failed e = tt
  in_time sleeps (alive now) e = omega (arith, sleeps polls_needed now e)

  -- A run returns, with a result or an error, after at most one poll for every 5 ms of its time limit
  -- and the 100 ms behind it, and two more, however long the program means to run: if `pipe` and
  -- `fork` return, each sleep takes 5 ms at least, and the output pipes are closed.
  pub run_sandboxed-Settles :
      (fuel : ℕ)
      → polls_needed < fuel
      → Settles o.pipes
      → Settles o.fork
      → Sleeps
      → o.drains ≡ true
      → Settles (run_sandboxed m o fuel config)
  run_sandboxed-Settles fuel enough pipes fork sleeps drains = Ends-Settles fuel (record {
    pipes = pipes;
    fork = fork;
    last_poll = polls_needed;
    in_fuel = enough;
    stops = in_time sleeps (o.polls polls_needed) refl;
    drains = drains;
  })

  parent_collect-eq-ok :
      (fuel child : ℕ) {r : RunResult}
      → parent_collect m o fuel child config ≡ ok r
      → (w : Waited) × (collected m o config w ≡ r)
  unfolding parent_collect
  parent_collect-eq-ok fuel child e =
      elim (Option-cases (wait_loop m child (deadline o config) o.polls o.after_kill fuel 0)) [
        | inl stuck ↦ absurd (ground (arith, stuck, e))
        | inr (w, returned) ↦ (
          w,
          elim (Bool-cases o.drains) [
            | inl closed ↦ ground (arith, returned, closed, e)
            | inr held ↦ absurd (ground (arith, returned, held, e))
          ],
        )
      ]

  pub run_sandboxed-eq-ok :
      (fuel : ℕ) {r : RunResult}
      → run_sandboxed m o fuel config ≡ ok r
      → (w : Waited) × (collected m o config w ≡ r)
  unfolding run_sandboxed
  run_sandboxed-eq-ok fuel e =
      let (u, _, e') = >>=-eq-ok o.pipes _ e in
      let (child, _, e'') = >>=-eq-ok o.fork _ e' in parent_collect-eq-ok fuel child e''

  collected-finished :
      (w : Waited)
      → (collected m o config w).status ≡ finished
      → ((collected m o config w).exit_code ≡ some (pos 0))
        × ((collected m o config w).wall_time_used ≤ config.time_limit + from_millis 50)
        × ((collected m o config w).stdout
            ≡ take config.max_output_bytes (until_end o.stdout_reads))
  unfolding collected
  collected-finished w s = (
    determine_status-exit_code w.was_killed o.elapsed config.time_limit w.final_status s,
    ((determine_status-finished_iff w.was_killed o.elapsed config.time_limit w.final_status).0 s).1,
    drain_fd-eq-take config.max_output_bytes o.stdout_reads,
  )

  -- A run that counts as finished exited with code 0 within 50 ms of the limit, and its output is
  -- the first `max_output_bytes` bytes of what the program wrote.
  pub run_sandboxed-finished :
      (fuel : ℕ) {r : RunResult}
      → run_sandboxed m o fuel config ≡ ok r
      → r.status ≡ finished
      → (r.exit_code ≡ some (pos 0))
        × (r.wall_time_used ≤ config.time_limit + from_millis 50)
        × (r.stdout ≡ take config.max_output_bytes (until_end o.stdout_reads))
  run_sandboxed-finished fuel e s =
      let (w, same) = run_sandboxed-eq-ok fuel e in
      subst
        (λ (r : RunResult).
          (r.exit_code ≡ some (pos 0))
          × (r.wall_time_used ≤ config.time_limit + from_millis 50)
          × (r.stdout ≡ take config.max_output_bytes (until_end o.stdout_reads)))
        same (collected-finished w (rw same s))
