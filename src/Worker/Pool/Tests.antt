-- ===== src/Worker/Pool/Tests.antt =====
-- Two workers that share two jobs, and the theorems about their steps.
use mikan_judge.Prelude.{◌≡◌, refl, none, some, List, [], ◌∷◌, arith}
use mikan_judge.Types.Language.{rust}
use mikan_judge.Types.Status.{exact}
use mikan_judge.Db.{Database}
use mikan_judge.Db.Submission.{Json}
use mikan_judge.Worker.{JudgeJob}
use mikan_judge.Worker.Judge.Writes.{row}
use mikan_judge.Worker.Pool.{
  Pool, spawn_workers, Event, sent, taken, Run, start, step, send, receive,
}
use mikan_judge.Worker.Pool.Fifo.{Accounts, run-Accounts}
use mikan_judge.Worker.Pool.Others.{run-row_ne}

abbrev json : Json
json = record {
  write_verdicts = λ vs. some "[]";
  read_verdicts = λ s. some [];
  read_strings = λ s. some [];
}

abbrev job : JudgeJob
job = record {
  id = 5;
  source_code = "";
  language = rust;
  testcases = [];
  time_limit_ms = 2000;
  memory_limit_kb = 262_144;
  judge_type = exact;
  scorer_path = none;
}

abbrev db : Database
db = record {
  users = [];
  submissions = [];
  contests = [];
  contest_problems = [];
  tower_sessions = [];
  ties = λ page id. id;
  outages = [];
}

abbrev events : List Event
events = sent job ∷ sent (record job { id = 6 }) ∷ taken job ∷ []

run : (p : Pool) × Run json (spawn_workers 2 db) events p
unfolding spawn_workers
run = (
  _,
  step
      (step (step start (send job refl (omega arith)))
        (send (record job { id = 6 }) refl (omega arith)))
      (receive 1 job (record job { id = 6 } ∷ []) refl refl),
)

run-Accounts_example : Accounts events run.0
run-Accounts_example = run-Accounts json 2 db run.1

run-row_ne_example : row 7 run.0.db ≡ row 7 db
run-row_ne_example = run-row_ne json 2 db 7 run.1 (omega arith, (omega arith, tt))
