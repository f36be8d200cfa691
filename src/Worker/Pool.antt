-- ===== src/Worker/Pool.antt =====
-- `spawn_workers` of src/worker/mod.rs: the tasks that share the receiving end of one channel, as a
-- step relation. A job makes two queries, one when it is taken up and one at its end, and the steps of
-- different workers may come in any order.
pub mod Held
pub mod Fifo
pub mod Others
mod Tests
use mikan_judge.Prelude.{
  ℕ, zero, suc, ◌≡◌, ◌<◌, Bool, true, false, Option, none, some, List, [], ◌∷◌, ◌++◌, length,
  get_elem?,
}
use mikan_judge.Prelude.Outcome.{ok, panic}
use mikan_judge.Types.Status.{running}
use mikan_judge.Db.{Database}
use mikan_judge.Db.Submission.{Json}
use mikan_judge.Worker.{JudgeJob, Host}
use mikan_judge.Worker.Judge.{set_status, judge_in}

-- A worker waits for a job, has received one, judges it behind `set_status`, or is gone.
pub data WorkerState : Type 0 where
  idle : WorkerState
  received : JudgeJob → WorkerState
  judging : JudgeJob → WorkerState
  stopped : WorkerState

-- `mpsc::channel(256)`, which is open while a sender is left.
pub record Pool : Type 0 where
  pub queue : List JudgeJob
  pub is_open : Bool
  pub workers : List WorkerState
  pub db : Database

abbrev pub capacity : ℕ
capacity = 256

abbrev pub idle_workers : ℕ → List WorkerState
idle_workers zero = []
idle_workers (suc n) = idle ∷ idle_workers n

unfoldable pub spawn_workers : ℕ → Database → Pool
spawn_workers num_workers db = record {
  queue = [];
  is_open = true;
  workers = idle_workers num_workers;
  db = db;
}

abbrev pub set_at : ℕ → WorkerState → List WorkerState → List WorkerState
set_at i s [] = []
set_at zero s (x ∷ xs) = s ∷ xs
set_at (suc i) s (x ∷ xs) = x ∷ set_at i s xs

pub data Event : Type 0 where
  sent : JudgeJob → Event
  taken : JudgeJob → Event
  ended : JudgeJob → Event
  silent : Event

module _ (json : Json) where
  pub data Step : Pool → Event → Pool → Type 0 where
    -- A handler sends once there is room.
    send :
        {p : Pool} (job : JudgeJob)
        → p.is_open ≡ true
        → length p.queue < capacity
        → Step p (sent job) (record p { queue = p.queue ++ job ∷ [] })
    -- The last sender is dropped.
    close : {p : Pool} → Step p silent (record p { is_open = false })
    receive :
        {p : Pool} (i : ℕ) (job : JudgeJob) (rest : List JudgeJob)
        → get_elem? p.workers i ≡ some idle
        → p.queue ≡ job ∷ rest
        → Step p
            (taken job)
            (record p { queue = rest; workers = set_at i (received job) p.workers })
    -- `recv` returns `None`, and the loop is left.
    shut_down :
        {p : Pool} (i : ℕ)
        → get_elem? p.workers i ≡ some idle
        → p.queue ≡ []
        → p.is_open ≡ false
        → Step p silent (record p { workers = set_at i stopped p.workers })
    begin :
        {p : Pool} (i : ℕ) (job : JudgeJob)
        → get_elem? p.workers i ≡ some (received job)
        → Step p silent (record p {
          workers = set_at i (judging job) p.workers;
          db = set_status job.id running p.db;
        })
    finish :
        {p : Pool} (i : ℕ) (job : JudgeJob) (host : Host)
        → get_elem? p.workers i ≡ some (judging job)
        → (judge_in json host job host.tempdir p.db).0 ≡ ok tt
        → Step p (ended job) (record p {
          workers = set_at i idle p.workers;
          db = (judge_in json host job host.tempdir p.db).1;
        })
    -- A panic in `judge` ends the task.
    crash :
        {p : Pool} (i : ℕ) (job : JudgeJob) (host : Host)
        → get_elem? p.workers i ≡ some (judging job)
        → (judge_in json host job host.tempdir p.db).0 ≡ panic
        → Step p (ended job) (record p {
          workers = set_at i stopped p.workers;
          db = (judge_in json host job host.tempdir p.db).1;
        })

  -- The steps from `p` on, with their events in order.
  pub data Run (p : Pool) : List Event → Pool → Type 0 where
    start : Run p [] p
    step :
        {es : List Event} {e : Event} {q r : Pool}
        → Run p es q
        → Step q e r
        → Run p (es ++ e ∷ []) r

abbrev pub sent_in : List Event → List JudgeJob
sent_in [] = []
sent_in (sent job ∷ es) = job ∷ sent_in es
sent_in (_ ∷ es) = sent_in es

abbrev pub taken_in : List Event → List JudgeJob
taken_in [] = []
taken_in (taken job ∷ es) = job ∷ taken_in es
taken_in (_ ∷ es) = taken_in es

abbrev pub ended_in : List Event → List JudgeJob
ended_in [] = []
ended_in (ended job ∷ es) = job ∷ ended_in es
ended_in (_ ∷ es) = ended_in es

-- The jobs that the workers hold.
abbrev pub held : List WorkerState → List JudgeJob
held [] = []
held (received job ∷ ws) = job ∷ held ws
held (judging job ∷ ws) = job ∷ held ws
held (_ ∷ ws) = held ws
