-- ===== src/Worker/Judge/Final.antt =====
-- What a job of src/worker/mod.rs comes to: that `judge` returns, and the status that it leaves in
-- the database.
use mathlib.Core.Option
use mathlib.Core.Path.{subst}
use mikan_judge.Prelude.{
  ℕ, suc, ◌≡◌, refl, ap, ◌∙◌, String, Bool, true, false, Option, none, some, List, [], ◌∷◌, ◌/◌,
  arith, Bool-cases, inl, inr,
}
use mikan_judge.Prelude.Outcome.{Outcome, ok, err, panic, out_of_fuel, ok_inj, >>=-eq-ok}
use mikan_judge.Types.Status.{
  JudgeType, exact, heuristic, JudgeStatus, pending, running, internal_error, is_heuristic,
  status_to_db,
}
use mikan_judge.Types.Records.{F64, FloatOps}
use mikan_judge.Sandbox.{FilePath, CompileOutput, RunStatus, RunResult}
use mikan_judge.Sandbox.Runner.{run_sandboxed}
use mikan_judge.Db.{Database, SubmissionRow}
use mikan_judge.Db.Submission.{Json, Results, with_results, with_status, update_result}
use mikan_judge.Worker.{
  JudgeJob, Host, CaseOutcome, sandbox_config, scored_status, case_status, judge_case,
}
use mikan_judge.Worker.Judge.{
  Progress, begin, record_case, set_status, judge_cases, conclude, judge_compiled, judge_in,
  run_compiled, judge, final_results, compile_error_results,
}
use mikan_judge.Worker.Judge.Writes.{row, set_status-row, update_result-row}

-- Neither waiting nor running.
abbrev pub is_final : JudgeStatus → Bool
is_final pending = false
is_final running = false
is_final _ = true

module _ (host : Host) (job : JudgeJob) (work_dir : FilePath) where
  scored_status-final :
      (o : Outcome F64) {x : JudgeStatus × Option F64}
      → scored_status host job work_dir o ≡ ok x
      → is_final x.0 ≡ true
  unfolding scored_status
  scored_status-final (ok score) e = ground arith
  scored_status-final (err m) e = ground arith
  scored_status-final panic e = cc
  scored_status-final out_of_fuel e = cc

  case_status-final :
      (i : ℕ) (tc : String × Option String) (run : RunResult) (kb : ℕ) (stdout : String)
      (s : RunStatus) {x : JudgeStatus × Option F64}
      → case_status host job work_dir i tc run kb stdout s ≡ ok x
      → is_final x.0 ≡ true
  unfolding case_status
  case_status-final i tc run kb stdout RunStatus.time_limit_exceeded e = ground arith
  case_status-final i tc run kb stdout RunStatus.finished e =
      elim (Bool-cases (is_heuristic job.judge_type)) [
        | inl h ↦ scored_status-final _ (rw h at e)
        | inr h ↦ ground (arith, h, e)
      ]
  case_status-final i tc run kb stdout _ e = ground arith

  judge_case-final :
      (compiled : CompileOutput) (i : ℕ) (tc : String × Option String) {c : CaseOutcome}
      → judge_case host job work_dir compiled i tc ≡ ok c
      → is_final c.status ≡ true
  unfolding judge_case
  judge_case-final compiled i tc e =
      let (run, _, e') =
        >>=-eq-ok (run_sandboxed host.macros (host.runs i) host.fuel (sandbox_config job)) _ e in
      let (x, status, e'') =
        >>=-eq-ok
          (case_status host job work_dir i tc run (run.memory_used_bytes / 1024)
            (host.from_utf8_lossy run.stdout) run.status)
          _ e' in
      subst (λ (c : CaseOutcome). is_final c.status ≡ true) (ok_inj e'')
        (case_status-final i tc run _ _ run.status status)

record_case-final :
    (floats : FloatOps) (p : Progress) (c : CaseOutcome)
    → is_final p.final_status ≡ true
    → is_final c.status ≡ true
    → is_final (record_case floats p c).final_status ≡ true
unfolding record_case
record_case-final floats p c h k = ground arith

begin-final : (t : JudgeType) → is_final (begin t).final_status ≡ true
unfolding begin
begin-final exact = refl
begin-final heuristic = refl

module _ (json : Json) (host : Host) (job : JudgeJob) where
  judge_cases-final :
      (work_dir : FilePath) (compiled : CompileOutput) (i : ℕ) (tcs : List (String × Option String))
      (p : Progress) {q : Progress}
      → is_final p.final_status ≡ true
      → judge_cases json host job work_dir compiled i tcs p ≡ ok q
      → is_final q.final_status ≡ true
  unfolding judge_cases
  judge_cases-final work_dir compiled i [] p h e = rw (← ok_inj e) h
  judge_cases-final work_dir compiled i (tc ∷ tcs) p h e =
      let (c, judged, e') = >>=-eq-ok (judge_case host job work_dir compiled i tc) _ e in
      judge_cases-final work_dir compiled (suc i) tcs (record_case host.floats p c)
        (record_case-final host.floats p c h
          (judge_case-final host job work_dir compiled i tc judged))
        e'

  -- The row of the job holds the text of a final status.
  pub record IsJudged (db : Database) : Type 0 where
    pub kept : SubmissionRow
    pub found : row job.id db ≡ some kept
    pub status : JudgeStatus
    pub written : kept.status ≡ status_to_db status
    pub final : is_final status ≡ true

  module _ (r : SubmissionRow) where
    set_status-IsJudged :
        (s : JudgeStatus) (db : Database)
        → is_final s ≡ true
        → db.outages ≡ []
        → row job.id db ≡ some r
        → IsJudged (set_status job.id s db)
    unfolding with_status
    set_status-IsJudged s db f e found = record {
      kept = with_status s r;
      found = (set_status-row json job.id s db e).1 ∙ ap (Option.map (with_status s)) found;
      status = s;
      written = refl;
      final = f;
    }

    update_result-IsJudged :
        (res : Results) (db : Database)
        → is_final res.status ≡ true
        → db.outages ≡ []
        → row job.id db ≡ some r
        → IsJudged (update_result json job.id res db).1
    unfolding with_results
    update_result-IsJudged res db f e found = record {
      kept = with_results json res r;
      found =
          update_result-row json job.id res db e ∙ ap (Option.map (with_results json res)) found;
      status = res.status;
      written = refl;
      final = f;
    }

    -- A step of `judge` that starts without outages and with the job's row there.
    abbrev Judges : (Database → Outcome (Unit {0}) × Database) → Type 0
    Judges step =
        (db : Database)
        → db.outages ≡ []
        → row job.id db ≡ some r
        → (step db).0 ≡ ok tt
        → IsJudged (step db).1

    conclude-Judges :
        (work_dir : FilePath) (compiled : CompileOutput) (o : Outcome Progress)
        → judge_cases json host job work_dir compiled 0 job.testcases (begin job.judge_type) ≡ o
        → Judges (conclude json host job o)
    unfolding conclude final_results
    conclude-Judges work_dir compiled (ok p) e db out found _ =
        update_result-IsJudged (final_results job.judge_type p) db
          (judge_cases-final work_dir compiled 0 job.testcases (begin job.judge_type)
            (begin-final job.judge_type) e)
          out found
    conclude-Judges work_dir compiled (err m) e db out found _ =
        set_status-IsJudged (internal_error m) db refl out found
    conclude-Judges work_dir compiled panic e db out found h = cc
    conclude-Judges work_dir compiled out_of_fuel e db out found h = cc

    run_compiled-Judges :
        (work_dir : FilePath) (c : CompileOutput) (error : Option String)
        → Judges (run_compiled json host job work_dir c error)
    unfolding run_compiled compile_error_results
    run_compiled-Judges work_dir c none db out found h =
        conclude-Judges work_dir c _ refl db out found h
    run_compiled-Judges work_dir c (some m) db out found h =
        update_result-IsJudged (compile_error_results m) db refl out found

    judge_compiled-Judges :
        (work_dir : FilePath) (o : Outcome CompileOutput)
        → Judges (judge_compiled json host job work_dir o)
    unfolding judge_compiled
    judge_compiled-Judges work_dir (ok c) db out found h =
        run_compiled-Judges work_dir c c.error db out found h
    judge_compiled-Judges work_dir (err m) db out found h =
        set_status-IsJudged (internal_error m) db refl out found
    judge_compiled-Judges work_dir panic db out found h = cc
    judge_compiled-Judges work_dir out_of_fuel db out found h = cc

    judge_in-Judges : (o : Outcome FilePath) → Judges (judge_in json host job o)
    unfolding judge_in
    judge_in-Judges (ok work_dir) db out found h = judge_compiled-Judges work_dir _ db out found h
    judge_in-Judges (err m) db out found h =
        set_status-IsJudged (internal_error m) db refl out found
    judge_in-Judges panic db out found h = cc
    judge_in-Judges out_of_fuel db out found h = cc

-- Where `judge` returns, the server answers every query and the submission is there, its row then
-- holds the text of a status that is neither pending nor running.
pub judge-IsJudged :
    (json : Json) (host : Host) (job : JudgeJob) (db : Database) (r : SubmissionRow)
    → db.outages ≡ []
    → row job.id db ≡ some r
    → (judge json host job db).0 ≡ ok tt
    → IsJudged json host job (judge json host job db).1
unfolding judge
judge-IsJudged json host job db r out found h =
    let (out', found') = set_status-row json job.id running db out in
    judge_in-Judges json host job (with_status running r) host.tempdir
      (set_status job.id running db) out' (found' ∙ ap (Option.map (with_status running)) found) h
