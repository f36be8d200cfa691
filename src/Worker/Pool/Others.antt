-- ===== src/Worker/Pool/Others.antt =====
-- What the workers of src/worker/mod.rs write while their queries interleave.
use mathlib.Core.Path.{subst}
use mikan_judge.Prelude.{ℕ, ◌≡◌, ◌≢◌, refl, ◌∙◌, List, [], ◌∷◌, ◌++◌, All, All-append}
use mikan_judge.Types.Records.{Uuid}
use mikan_judge.Types.Status.{running}
use mikan_judge.Db.{Database}
use mikan_judge.Db.Submission.{Json}
use mikan_judge.Worker.{JudgeJob}
use mikan_judge.Worker.Judge.Writes.{row, set_status-row_ne, judge_in-row_ne}
use mikan_judge.Worker.Pool.Held.{held-set_at, held-get, held-idle}
use mikan_judge.Worker.Pool.{
  idle, received, judging, stopped, Pool, spawn_workers, Event, sent, taken, ended, silent, Step,
  send, close, receive, shut_down, begin, finish, crash, Run, start, step, sent_in, held,
}

module _ (j : Uuid) where
  abbrev Other : JudgeJob → Type 0
  Other job = j ≢ job.id

  -- No job at hand is that of the submission.
  record Spared (db : Database) (p : Pool) : Type 0 where
    waiting : All Other p.queue
    working : All Other (held p.workers)
    untouched : row j p.db ≡ row j db

  module _ (json : Json) (db : Database) where
    step-Spared :
        (e : Event) (p r : Pool)
        → Step json p e r
        → All Other (sent_in (e ∷ []))
        → Spared db p
        → Spared db r
    step-Spared e p r (send job o room) new s = record {
      waiting = All-append Other p.queue (job ∷ []) s.waiting new;
      working = s.working;
      untouched = s.untouched;
    }
    step-Spared e p r close new s = record {
      waiting = s.waiting;
      working = s.working;
      untouched = s.untouched;
    }
    step-Spared e p r (receive i job rest at is) new s =
        let both = subst (All Other) is s.waiting in
        record {
          waiting = both.1;
          working = held-set_at Other i (received job) p.workers (both.0, tt) s.working;
          untouched = s.untouched;
        }
    step-Spared e p r (shut_down i at none_left closed) new s = record {
      waiting = s.waiting;
      working = held-set_at Other i stopped p.workers tt s.working;
      untouched = s.untouched;
    }
    step-Spared e p r (begin i job at) new s =
        let own = held-get Other i (received job) p.workers at s.working in
        record {
          waiting = s.waiting;
          working = held-set_at Other i (judging job) p.workers own s.working;
          untouched = set_status-row_ne json job.id running j p.db own.0 ∙ s.untouched;
        }
    step-Spared e p r (finish i job host at fine) new s =
        let own = held-get Other i (judging job) p.workers at s.working in
        record {
          waiting = s.waiting;
          working = held-set_at Other i idle p.workers tt s.working;
          untouched = judge_in-row_ne json host job j own.0 host.tempdir p.db ∙ s.untouched;
        }
    step-Spared e p r (crash i job host at bad) new s =
        let own = held-get Other i (judging job) p.workers at s.working in
        record {
          waiting = s.waiting;
          working = held-set_at Other i stopped p.workers tt s.working;
          untouched = judge_in-row_ne json host job j own.0 host.tempdir p.db ∙ s.untouched;
        }

    start-Spared : (n : ℕ) → Spared db (spawn_workers n db)
    unfolding spawn_workers
    start-Spared n = record { waiting = tt; working = held-idle Other n; untouched = refl }

    sent-parts :
        (es : List Event) (e : Event)
        → All Other (sent_in (es ++ e ∷ []))
        → All Other (sent_in es) × All Other (sent_in (e ∷ []))
    sent-parts [] e h = (tt, h)
    sent-parts (sent job ∷ es) e h = let rest = sent-parts es e h.1 in ((h.0, rest.0), rest.1)
    sent-parts (taken job ∷ es) e h = sent-parts es e h
    sent-parts (ended job ∷ es) e h = sent-parts es e h
    sent-parts (silent ∷ es) e h = sent-parts es e h

    run-Spared :
        (n : ℕ) {es : List Event} {p : Pool}
        → Run json (spawn_workers n db) es p
        → All Other (sent_in es)
        → Spared db p
    run-Spared n start h = start-Spared n
    run-Spared n (step {es = es} {e = e} {q = q} {r = r} run last) h =
        let (before, new) = sent-parts es e h in
        step-Spared e q r last new (run-Spared n run before)

-- However the queries of the workers interleave, the row of a submission stays as it is as long as no
-- job of that submission is sent.
pub run-row_ne :
    (json : Json) (n : ℕ) (db : Database) (j : Uuid) {es : List Event} {p : Pool}
    → Run json (spawn_workers n db) es p
    → All (λ job. j ≢ job.id) (sent_in es)
    → row j p.db ≡ row j db
run-row_ne json n db j run h = (run-Spared j json db n run h).untouched
