-- ===== src/Worker/Judge/Result.antt =====
-- The row that `judge` of src/worker/mod.rs leaves for a job whose cases were all run, as a function
-- of the cases' outcomes.
use mathlib.Core.Option
use mikan_judge.Prelude.{
  ℕ, suc, ◌≡◌, ◌↔◌, refl, sym, ap, ◌∙◌, String, true, false, Option, none, some, List, [], ◌∷◌, map,
  All, Bool-cases, Option-cases, inl, inr, arith, if◌then◌else◌,
}
use mikan_judge.Prelude.Outcome.{Outcome, ok, ok_inj, >>=-eq-ok}
use mikan_judge.Types.Status.{
  JudgeType, exact, heuristic, JudgeStatus, running, accepted, is_success, is_heuristic,
  status_to_db, status_from_db,
}
use mikan_judge.Types.Status.Database.{erase, status_from_db-status_to_db}
use mikan_judge.Types.Records.{f64_zero}
use mikan_judge.Sandbox.{FilePath, CompileOutput}
use mikan_judge.Sandbox.Compile.{compile}
use mikan_judge.Db.{Database, SubmissionRow}
use mikan_judge.Db.Submission.{Json, Results, with_results, with_status, update_result}
use mikan_judge.Worker.{JudgeJob, Host, CaseOutcome, judge_case}
use mikan_judge.Worker.Judge.{
  Progress, begin, initial_status, record_case, verdict_of, judge_cases, set_status, conclude,
  run_compiled, judge_compiled, judge_in, judge, final_results, positive,
}
use mikan_judge.Worker.Judge.Loop.{
  first_failure, status_or, stdout_or, stderr_or, greatest, sum_scores, Summarises, record_all,
  record_all-Summarises, outcomes,
}
use mikan_judge.Worker.Judge.Writes.{row, set_status-row, update_result-row}

first_failure-fails :
    (cs : List CaseOutcome) {c : CaseOutcome}
    → first_failure cs ≡ some c
    → is_success c.status ≡ false
first_failure-fails [] e = cc
first_failure-fails (d ∷ cs) {c} e = elim (Bool-cases (is_success d.status)) [
  | inl pass ↦ first_failure-fails cs {c = c} (ground (arith, pass, e))
  | inr fail ↦ ground (arith, fail, e)
]

first_failure-none_iff :
    (cs : List CaseOutcome) → (first_failure cs ≡ none) ↔ All (λ c. is_success c.status ≡ true) cs
first_failure-none_iff [] = (λ e. tt, λ a. refl)
first_failure-none_iff (d ∷ cs) = ground (arith, first_failure-none_iff cs)

-- The results that the outcomes `cs` of all cases make.
abbrev pub results_of : Host → JudgeType → List CaseOutcome → Results
results_of host t cs = record {
  status = status_or (initial_status t) (first_failure cs);
  time_used_ms = positive (greatest 0 (map (λ c. c.time_ms) cs));
  memory_used_kb = positive (greatest 0 (map (λ c. c.memory_kb) cs));
  stdout = some (stdout_or "" (first_failure cs));
  stderr = some (stderr_or "" (first_failure cs));
  testcase_results = some (map verdict_of cs);
  score = if is_heuristic t then some (sum_scores host.floats f64_zero cs) else none;
}

initial_passing : (t : JudgeType) → is_success (initial_status t) ≡ true
initial_passing exact = refl
initial_passing heuristic = refl

module _ (host : Host) (t : JudgeType) (cs : List CaseOutcome) (p : Progress)
    (s : Summarises host.floats t cs p) where
  shown_stdout :
      (if is_success p.final_status then "" else p.first_fail_stdout)
      ≡ stdout_or "" (first_failure cs)
  shown_stdout = elim (Option-cases (first_failure cs)) [
    | inl passed ↦ ground (arith, passed, s.final_status, s.stdout, initial_passing t)
    | inr (c, failed) ↦
        ground (arith, failed, s.final_status, s.stdout, first_failure-fails cs {c = c} failed)
  ]

  shown_stderr :
      (if is_success p.final_status then "" else p.first_fail_stderr)
      ≡ stderr_or "" (first_failure cs)
  shown_stderr = elim (Option-cases (first_failure cs)) [
    | inl passed ↦ ground (arith, passed, s.final_status, s.stderr, initial_passing t)
    | inr (c, failed) ↦
        ground (arith, failed, s.final_status, s.stderr, first_failure-fails cs {c = c} failed)
  ]

  final_results-eq : final_results t p ≡ results_of host t cs
  unfolding final_results
  final_results-eq = λ i. record {
    status = s.final_status i;
    time_used_ms = positive (s.time i);
    memory_used_kb = positive (s.memory i);
    stdout = some (shown_stdout i);
    stderr = some (shown_stderr i);
    testcase_results = some (s.verdicts i);
    score = if is_heuristic t then some (s.score i) else none;
  }

module _ (json : Json) (host : Host) (job : JudgeJob) (work_dir : FilePath)
    (c : CompileOutput) where
  judge_cases-of_outcomes :
      (i : ℕ) (tcs : List (String × Option String)) (p : Progress) {cs : List CaseOutcome}
      → outcomes json host job work_dir c i tcs ≡ ok cs
      → judge_cases json host job work_dir c i tcs p ≡ ok (record_all host.floats p cs)
  unfolding judge_cases
  judge_cases-of_outcomes i [] p e = rw (← ok_inj e) refl
  judge_cases-of_outcomes i (tc ∷ tcs) p e =
      let (o, judged, e') = >>=-eq-ok (judge_case host job work_dir c i tc) _ e in
      let (os, later, e'') = >>=-eq-ok (outcomes json host job work_dir c (suc i) tcs) _ e' in
      rw (judged, ← ok_inj e'')
        (judge_cases-of_outcomes (suc i) tcs (record_case host.floats p o) later)

module _ (host : Host) (job : JudgeJob) (work_dir : FilePath) (c : CompileOutput) where
  -- The folder is made and the source compiles; `cs` are the outcomes of the cases, all of which run.
  pub record Runs (json : Json) (cs : List CaseOutcome) : Type 0 where
    pub made : host.tempdir ≡ ok work_dir
    pub compiled : compile host.system job.source_code job.language work_dir ≡ ok c
    pub clean : c.error ≡ none
    pub ran : outcomes json host job work_dir c 0 job.testcases ≡ ok cs

module _ (json : Json) (host : Host) (job : JudgeJob) (work_dir : FilePath) (c : CompileOutput)
    (cs : List CaseOutcome) (runs : Runs host job work_dir c json cs) where
  run_compiled-eq :
      (db : Database)
      → run_compiled json host job work_dir c none db
        ≡ (ok tt, (update_result json job.id (results_of host job.judge_type cs) db).1)
  unfolding run_compiled conclude
  run_compiled-eq db =
      let looped =
        judge_cases-of_outcomes json host job work_dir c 0 job.testcases (begin job.judge_type)
          runs.ran in
      let same =
        final_results-eq host job.judge_type cs (record_all host.floats (begin job.judge_type) cs)
          (record_all-Summarises host.floats job.judge_type cs) in
      ap (λ o. conclude json host job o db) looped
      ∙ ap (λ res. (ok tt, (update_result json job.id res db).1)) same

  pub judge-eq :
      (db : Database)
      → (judge json host job db).1
        ≡ (update_result json job.id
            (results_of host job.judge_type cs)
            (set_status job.id running db)).1
  unfolding judge judge_in judge_compiled
  judge-eq db =
      ap (λ o. (judge_in json host job o (set_status job.id running db)).1) runs.made
      ∙ ap (λ o. (judge_compiled json host job work_dir o (set_status job.id running db)).1)
          runs.compiled
      ∙ ap (λ e. (run_compiled json host job work_dir c e (set_status job.id running db)).1)
          runs.clean
      ∙ ap (λ (r : Outcome (Unit {0}) × Database). r.1)
          (run_compiled-eq (set_status job.id running db))

  -- Where the server answers every query, a job whose cases were all run leaves its row with the
  -- results that the outcomes of all cases make.
  pub judge-row :
      (db : Database)
      → db.outages ≡ []
      → row job.id (judge json host job db).1
        ≡ Option.map
            (λ r. with_results json (results_of host job.judge_type cs) (with_status running r))
            (row job.id db)
  judge-row db out =
      let (out', found) = set_status-row json job.id running db out in
      rw (judge-eq db) (
        update_result-row json job.id (results_of host job.judge_type cs)
          (set_status job.id running db) out'
        ∙ ap (Option.map (with_results json (results_of host job.judge_type cs))) found
        ∙ Option.map-map _ _ (row job.id db))

read_accepted : status_from_db "accepted" ≡ accepted
unfolding status_from_db
read_accepted = refl

-- What the database keeps of a status says whether it was `accepted`.
pub read_accepted_iff :
    (s : JudgeStatus) → (status_from_db (status_to_db s) ≡ accepted) ↔ (s ≡ accepted)
unfolding status_from_db status_to_db
read_accepted_iff s = (
  λ e. erased s (sym (status_from_db-status_to_db s) ∙ e),
  λ e. ap (λ z. status_from_db (status_to_db z)) e ∙ read_accepted,
)
  where
    erased : (s : JudgeStatus) → erase s ≡ accepted → s ≡ accepted
    erased s e = ground arith

accepted_text : (s : JudgeStatus) → (status_to_db s ≡ "accepted") ↔ (s ≡ accepted)
unfolding status_to_db
accepted_text s =
    (λ e. (read_accepted_iff s).0 (ap status_from_db e ∙ read_accepted), λ e. ap status_to_db e)

pub accepted_or_iff :
    (cs : List CaseOutcome)
    → (status_or accepted (first_failure cs) ≡ accepted) ↔ All (λ c. is_success c.status ≡ true) cs
accepted_or_iff cs = elim (Option-cases (first_failure cs)) [
  | inl passed ↦ (λ _. (first_failure-none_iff cs).0 passed, λ _. rw passed refl)
  | inr (c, failed) ↦ (
    λ e. absurd (ground (arith, failed, e, first_failure-fails cs {c = c} failed)),
    λ a. absurd (ground (arith, failed, (first_failure-none_iff cs).1 a)),
  )
]

-- A job of an exact contest whose cases were all run, with a server that answers every query, is
-- recorded as accepted exactly when every case passed.
pub judge-accepted_iff :
    (json : Json) (host : Host) (job : JudgeJob) (work_dir : FilePath) (c : CompileOutput)
    (cs : List CaseOutcome) (db : Database) (r : SubmissionRow)
    → Runs host job work_dir c json cs
    → job.judge_type ≡ exact
    → db.outages ≡ []
    → row job.id db ≡ some r
    → (kept : SubmissionRow) × (row job.id (judge json host job db).1 ≡ some kept)
      × ((kept.status ≡ "accepted") ↔ All (λ c. is_success c.status ≡ true) cs)
unfolding with_results
judge-accepted_iff json host job work_dir c cs db r runs exactly out found = (
  with_results json (results_of host job.judge_type cs) (with_status running r),
  judge-row json host job work_dir c cs runs db out ∙ ap (Option.map _) found,
  rw exactly (
    λ e. (accepted_or_iff cs).0 ((accepted_text _).0 e),
    λ a. (accepted_text _).1 ((accepted_or_iff cs).1 a),
  ),
)
