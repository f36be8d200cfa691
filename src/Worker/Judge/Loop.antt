-- ===== src/Worker/Judge/Loop.antt =====
-- The loop of `judge` in src/worker/mod.rs over the cases, against what it is meant to compute.
use mathlib.Core.List.{append-nil, append_assoc}
use mathlib.Core.Path.{subst}
use mikan_judge.Db.Submission.{Json}
use mikan_judge.Prelude.{
  ℕ, suc, max, ◌≡◌, refl, sym, ap, ◌∙◌, String, Bool, true, false, not, Option, none, some, List,
  [], ◌∷◌, ◌++◌, map, find, ltb, arith, Bool-cases, inl, inr, if◌then◌else◌,
}
use mikan_judge.Prelude.Outcome.{Outcome, ok, ◌>>=◌, ok_inj, >>=-eq-ok}
use mikan_judge.Types.Status.{JudgeType, JudgeStatus, is_success}
use mikan_judge.Types.Records.{F64, f64_zero, FloatOps}
use mikan_judge.Sandbox.{FilePath, CompileOutput}
use mikan_judge.Worker.{JudgeJob, Host, CaseOutcome, judge_case}
use mikan_judge.Worker.Judge.{
  Progress, initial_status, begin, verdict_of, add_score, record_case, judge_cases,
}

abbrev pub is_failure : CaseOutcome → Bool
is_failure c = not (is_success c.status)

-- The first case that did not pass.
abbrev pub first_failure : List CaseOutcome → Option CaseOutcome
first_failure = find is_failure

abbrev pub status_or : JudgeStatus → Option CaseOutcome → JudgeStatus
status_or s none = s
status_or s (some c) = c.status

abbrev pub stdout_or : String → Option CaseOutcome → String
stdout_or s none = s
stdout_or s (some c) = c.stdout

abbrev pub stderr_or : String → Option CaseOutcome → String
stderr_or s none = s
stderr_or s (some c) = c.stderr

-- The greatest of the numbers, from `n` on.
abbrev pub greatest : ℕ → List ℕ → ℕ
greatest n [] = n
greatest n (x ∷ xs) = greatest (max n x) xs

abbrev pub sum_scores : FloatOps → F64 → List CaseOutcome → F64
sum_scores floats total [] = total
sum_scores floats total (c ∷ cs) = sum_scores floats (add_score floats total c.score) cs

-- `p` sums up the outcomes `cs` of the cases, in order.
pub record Summarises (floats : FloatOps) (t : JudgeType) (cs : List CaseOutcome) (p : Progress)
    : Type 0 where
  pub final_status : p.final_status ≡ status_or (initial_status t) (first_failure cs)
  pub stdout : p.first_fail_stdout ≡ stdout_or "" (first_failure cs)
  pub stderr : p.first_fail_stderr ≡ stderr_or "" (first_failure cs)
  pub verdicts : p.tc_verdicts ≡ map verdict_of cs
  pub time : p.max_time_ms ≡ greatest 0 (map (λ c. c.time_ms) cs)
  pub memory : p.max_memory_kb ≡ greatest 0 (map (λ c. c.memory_kb) cs)
  pub score : p.total_score ≡ sum_scores floats f64_zero cs

begin_passing : (t : JudgeType) → is_success (begin t).final_status ≡ true
unfolding begin
begin_passing JudgeType.exact = refl
begin_passing JudgeType.heuristic = refl

module _ (floats : FloatOps) where
  abbrev pub record_all : Progress → List CaseOutcome → Progress
  record_all p [] = p
  record_all p (c ∷ cs) = record_all (record_case floats p c) cs

  -- The three variables that only the first failure sets.
  abbrev Shows : Progress → JudgeStatus → String → String → Type 0
  Shows p status stdout stderr =
      (p.final_status ≡ status) × (p.first_fail_stdout ≡ stdout) × (p.first_fail_stderr ≡ stderr)

  record_case-failed :
      (p : Progress) (c : CaseOutcome)
      → is_success p.final_status ≡ false
      → Shows (record_case floats p c) p.final_status p.first_fail_stdout p.first_fail_stderr
  unfolding record_case
  record_case-failed p c h = ground arith

  record_case-passes :
      (p : Progress) (c : CaseOutcome)
      → is_success c.status ≡ true
      → Shows (record_case floats p c) p.final_status p.first_fail_stdout p.first_fail_stderr
  unfolding record_case
  record_case-passes p c h = ground arith

  record_case-fails :
      (p : Progress) (c : CaseOutcome)
      → is_success p.final_status ≡ true
      → is_success c.status ≡ false
      → Shows (record_case floats p c) c.status c.stdout c.stderr
  unfolding record_case
  record_case-fails p c h k = ground arith

  record_all-failed :
      (p : Progress) (cs : List CaseOutcome)
      → is_success p.final_status ≡ false
      → Shows (record_all p cs) p.final_status p.first_fail_stdout p.first_fail_stderr
  record_all-failed p [] h = (refl, refl, refl)
  record_all-failed p (c ∷ cs) h =
      let (status, stdout, stderr) = record_case-failed p c h in
      let (s, o, e) = record_all-failed (record_case floats p c) cs (rw status h) in
      (s ∙ status, o ∙ stdout, e ∙ stderr)

  record_all-passing :
      (p : Progress) (cs : List CaseOutcome)
      → is_success p.final_status ≡ true
      → Shows
          (record_all p cs)
          (status_or p.final_status (first_failure cs))
          (stdout_or p.first_fail_stdout (first_failure cs))
          (stderr_or p.first_fail_stderr (first_failure cs))
  record_all-passing p [] h = (refl, refl, refl)
  record_all-passing p (c ∷ cs) h = elim (Bool-cases (is_success c.status)) [
    | inl pass ↦
        let (status, stdout, stderr) = record_case-passes p c pass in
        let (s, o, e) = record_all-passing (record_case floats p c) cs (rw status h) in
        rw pass (
          s ∙ ap (λ x. status_or x (first_failure cs)) status,
          o ∙ ap (λ x. stdout_or x (first_failure cs)) stdout,
          e ∙ ap (λ x. stderr_or x (first_failure cs)) stderr,
        )
    | inr fail ↦
        let (status, stdout, stderr) = record_case-fails p c h fail in
        let (s, o, e) = record_all-failed (record_case floats p c) cs (rw status fail) in
        rw fail (s ∙ status, o ∙ stdout, e ∙ stderr)
  ]

  record_all-verdicts :
      (p : Progress) (cs : List CaseOutcome)
      → (record_all p cs).tc_verdicts ≡ p.tc_verdicts ++ map verdict_of cs
  unfolding record_case
  record_all-verdicts p [] = sym (append-nil p.tc_verdicts)
  record_all-verdicts p (c ∷ cs) =
      record_all-verdicts (record_case floats p c) cs
      ∙ append_assoc p.tc_verdicts (verdict_of c ∷ []) (map verdict_of cs)

  max_if : (a b : ℕ) → (if ltb a b then b else a) ≡ max a b
  max_if a b = ground arith

  record_all-time :
      (p : Progress) (cs : List CaseOutcome)
      → (record_all p cs).max_time_ms ≡ greatest p.max_time_ms (map (λ c. c.time_ms) cs)
  unfolding record_case
  record_all-time p [] = refl
  record_all-time p (c ∷ cs) =
      record_all-time (record_case floats p c) cs
      ∙ ap (λ n. greatest n (map (λ c. c.time_ms) cs)) (max_if p.max_time_ms c.time_ms)

  record_all-memory :
      (p : Progress) (cs : List CaseOutcome)
      → (record_all p cs).max_memory_kb ≡ greatest p.max_memory_kb (map (λ c. c.memory_kb) cs)
  unfolding record_case
  record_all-memory p [] = refl
  record_all-memory p (c ∷ cs) =
      record_all-memory (record_case floats p c) cs
      ∙ ap (λ n. greatest n (map (λ c. c.memory_kb) cs)) (max_if p.max_memory_kb c.memory_kb)

  record_all-score :
      (p : Progress) (cs : List CaseOutcome)
      → (record_all p cs).total_score ≡ sum_scores floats p.total_score cs
  unfolding record_case
  record_all-score p [] = refl
  record_all-score p (c ∷ cs) = record_all-score (record_case floats p c) cs

  pub record_all-Summarises :
      (t : JudgeType) (cs : List CaseOutcome) → Summarises floats t cs (record_all (begin t) cs)
  unfolding begin
  record_all-Summarises t cs =
      let (s, o, e) = record_all-passing (begin t) cs (begin_passing t) in
      record {
        final_status = s;
        stdout = o;
        stderr = e;
        verdicts = record_all-verdicts (begin t) cs;
        time = record_all-time (begin t) cs;
        memory = record_all-memory (begin t) cs;
        score = record_all-score (begin t) cs;
      }

module _ (json : Json) (host : Host) (job : JudgeJob) (work_dir : FilePath)
    (compiled : CompileOutput) where
  -- The outcomes of the cases from number `i` on.
  abbrev pub outcomes : ℕ → List (String × Option String) → Outcome (List CaseOutcome)
  outcomes i [] = ok []
  outcomes i (tc ∷ tcs) = do
    c ← judge_case host job work_dir compiled i tc
    cs ← outcomes (suc i) tcs
    ok (c ∷ cs)

  judge_cases-eq-ok :
      (i : ℕ) (tcs : List (String × Option String)) (p : Progress) {q : Progress}
      → judge_cases json host job work_dir compiled i tcs p ≡ ok q
      → (cs : List CaseOutcome) × (outcomes i tcs ≡ ok cs) × (record_all host.floats p cs ≡ q)
  unfolding judge_cases
  judge_cases-eq-ok i [] p e = ([], refl, ok_inj e)
  judge_cases-eq-ok i (tc ∷ tcs) p e =
      let (c, judged, e') = >>=-eq-ok (judge_case host job work_dir compiled i tc) _ e in
      let (cs, later, same) = judge_cases-eq-ok (suc i) tcs (record_case host.floats p c) e' in
      (c ∷ cs, rw (judged, later) refl, same)

  -- Where the loop over a job's cases ends, its variables sum up the outcomes of all cases in order:
  -- the status and the outputs are those of the first case that did not pass, or the initial ones if
  -- all passed; the verdicts are one for each case; time and memory are the greatest of all cases;
  -- the score is the sum of the cases' scores.
  pub judge_cases-Summarises :
      (p : Progress)
      → judge_cases json host job work_dir compiled 0 job.testcases (begin job.judge_type) ≡ ok p
      → (cs : List CaseOutcome) × (outcomes 0 job.testcases ≡ ok cs)
        × Summarises host.floats job.judge_type cs p
  judge_cases-Summarises p e =
      let (cs, judged, same) = judge_cases-eq-ok 0 job.testcases (begin job.judge_type) e in
      (
        cs,
        judged,
        subst (Summarises host.floats job.judge_type cs) same
            (record_all-Summarises host.floats job.judge_type cs),
      )
