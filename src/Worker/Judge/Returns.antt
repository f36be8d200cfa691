-- ===== src/Worker/Judge/Returns.antt =====
-- `judge` of src/worker/mod.rs returns, without a panic.
use mikan_judge.Prelude.{
  ℕ, suc, ◌≡◌, refl, String, not, Option, none, some, List, [], ◌∷◌, ◌==◌, trim, unwrap_or, ◌/◌,
}
use mikan_judge.Prelude.Outcome.{
  Outcome, ok, err, panic, out_of_fuel, Settles, Settles-bind, Settles-if,
}
use mikan_judge.Types.Status.{is_heuristic}
use mikan_judge.Types.Records.{F64}
use mikan_judge.Sandbox.{FilePath, CompileOutput, RunStatus, RunResult}
use mikan_judge.Sandbox.Compile.{Output, join}
use mikan_judge.Sandbox.Compile.Total.{IsCalm, compile-Settles}
use mikan_judge.Sandbox.Runner.{run_sandboxed}
use mikan_judge.Sandbox.Runner.Limits.{Ends, Ends-Settles}
use mikan_judge.Db.{Database}
use mikan_judge.Db.Submission.{Json}
use mikan_judge.Worker.{
  JudgeJob, Host, sandbox_config, run_scorer, parsed_score, scorer_result, scored_status,
  case_status, judge_case,
}
use mikan_judge.Worker.Judge.{
  Progress, begin, record_case, judge_cases, conclude, judge_compiled, judge_in, run_compiled,
  judge,
}

-- The host's own calls return, and every run of a program ends within the fuel, its output pipes
-- closed.
pub record IsHealthy (host : Host) (job : JudgeJob) : Type 0 where
  pub calm : IsCalm host.system
  pub tempdir : Settles host.tempdir
  pub ends : (i : ℕ) → Ends host.macros (host.runs i) (sandbox_config job) host.fuel
  pub scorer : (i : ℕ) → Settles (host.scorer_runs i)
  pub parse : (s : String) → Settles (host.floats.parse s)

module _ (host : Host) (job : JudgeJob) (healthy : IsHealthy host job) where
  parsed_score-Settles :
      (text : String) (o : Outcome F64) → Settles o → Settles (parsed_score host text o)
  unfolding parsed_score
  parsed_score-Settles text (ok score) h = tt
  parsed_score-Settles text (err e) h = tt
  parsed_score-Settles text panic h = h
  parsed_score-Settles text out_of_fuel h = h

  scorer_result-Settles : (result : Output) → Settles (scorer_result host result)
  unfolding scorer_result
  scorer_result-Settles result =
      Settles-if (not result.success) _ _ tt
        (parsed_score-Settles (trim result.stdout) _ (healthy.parse (trim result.stdout)))

  run_scorer-Settles :
      (scorer : Option FilePath) (i : ℕ) (input output : String) (work_dir : FilePath)
      → Settles (run_scorer host scorer i input output work_dir)
  unfolding run_scorer
  run_scorer-Settles none i input output work_dir = tt
  run_scorer-Settles (some scorer) i input output work_dir =
      Settles-bind (host.system.write_file (join work_dir "scorer_input.txt") input) _
        (healthy.calm.writes _ input)
        λ _.
          Settles-bind (host.system.write_file (join work_dir "scorer_output.txt") output) _
            (healthy.calm.writes _ output)
            λ _. Settles-bind (host.scorer_runs i) _ (healthy.scorer i) scorer_result-Settles

  module _ (work_dir : FilePath) where
    scored_status-Settles :
        (o : Outcome F64) → Settles o → Settles (scored_status host job work_dir o)
    unfolding scored_status
    scored_status-Settles (ok score) h = tt
    scored_status-Settles (err e) h = tt
    scored_status-Settles panic h = h
    scored_status-Settles out_of_fuel h = h

    case_status-Settles :
        (i : ℕ) (tc : String × Option String) (run : RunResult) (kb : ℕ) (stdout : String)
        (s : RunStatus)
        → Settles (case_status host job work_dir i tc run kb stdout s)
    unfolding case_status
    case_status-Settles i tc run kb stdout RunStatus.time_limit_exceeded = tt
    case_status-Settles i tc run kb stdout RunStatus.finished =
        Settles-if (is_heuristic job.judge_type) _ _
          (scored_status-Settles _ (run_scorer-Settles job.scorer_path i tc.0 stdout work_dir))
          (Settles-if (trim stdout == trim (unwrap_or tc.1 "")) _ _ tt tt)
    case_status-Settles i tc run kb stdout _ = tt

    judge_case-Settles :
        (compiled : CompileOutput) (i : ℕ) (tc : String × Option String)
        → Settles (judge_case host job work_dir compiled i tc)
    unfolding judge_case
    judge_case-Settles compiled i tc =
        Settles-bind (run_sandboxed host.macros (host.runs i) host.fuel (sandbox_config job)) _
          (Ends-Settles host.macros (host.runs i) (sandbox_config job) host.fuel (healthy.ends i))
          λ run.
            Settles-bind
              (case_status host job work_dir i tc run (run.memory_used_bytes / 1024)
                (host.from_utf8_lossy run.stdout) run.status)
              _ (case_status-Settles i tc run _ _ run.status) (λ x. tt)

    module _ (json : Json) (compiled : CompileOutput) where
      judge_cases-Settles :
          (i : ℕ) (tcs : List (String × Option String)) (p : Progress)
          → Settles (judge_cases json host job work_dir compiled i tcs p)
      unfolding judge_cases
      judge_cases-Settles i [] p = tt
      judge_cases-Settles i (tc ∷ tcs) p =
          Settles-bind (judge_case host job work_dir compiled i tc) _
            (judge_case-Settles compiled i tc)
            (λ c. judge_cases-Settles (suc i) tcs (record_case host.floats p c))

  module _ (json : Json) where
    conclude-returns :
        (o : Outcome Progress) (db : Database) → Settles o → (conclude json host job o db).0 ≡ ok tt
    unfolding conclude
    conclude-returns (ok p) db h = refl
    conclude-returns (err e) db h = refl
    conclude-returns panic db h = elim h [ ]
    conclude-returns out_of_fuel db h = elim h [ ]

    run_compiled-returns :
        (work_dir : FilePath) (c : CompileOutput) (error : Option String) (db : Database)
        → (run_compiled json host job work_dir c error db).0 ≡ ok tt
    unfolding run_compiled
    run_compiled-returns work_dir c none db =
        conclude-returns _ db
          (judge_cases-Settles work_dir json c 0 job.testcases (begin job.judge_type))
    run_compiled-returns work_dir c (some m) db = refl

    judge_compiled-returns :
        (work_dir : FilePath) (o : Outcome CompileOutput) (db : Database)
        → Settles o
        → (judge_compiled json host job work_dir o db).0 ≡ ok tt
    unfolding judge_compiled
    judge_compiled-returns work_dir (ok c) db h = run_compiled-returns work_dir c c.error db
    judge_compiled-returns work_dir (err e) db h = refl
    judge_compiled-returns work_dir panic db h = elim h [ ]
    judge_compiled-returns work_dir out_of_fuel db h = elim h [ ]

    judge_in-returns :
        (o : Outcome FilePath) (db : Database) → Settles o → (judge_in json host job o db).0 ≡ ok tt
    unfolding judge_in
    judge_in-returns (ok work_dir) db h =
        judge_compiled-returns work_dir _ db
          (compile-Settles host.system job.source_code job.language work_dir healthy.calm)
    judge_in-returns (err e) db h = refl
    judge_in-returns panic db h = elim h [ ]
    judge_in-returns out_of_fuel db h = elim h [ ]

-- On a host whose own calls return, with fuel for the runs of all cases, and if the output pipes of
-- each run are closed, `judge` returns and does not panic, for every job and every schedule of outages.
pub judge_returns :
    (json : Json) (host : Host) (job : JudgeJob) (db : Database)
    → IsHealthy host job
    → (judge json host job db).0 ≡ ok tt
unfolding judge
judge_returns json host job db healthy =
    judge_in-returns host job healthy json host.tempdir _ healthy.tempdir
