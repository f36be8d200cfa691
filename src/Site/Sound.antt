-- ===== src/Site/Sound.antt =====
-- What holds of the tables, the channel and the workers, whatever requests and jobs do.
use mathlib.Core.Path.{subst}
use mikan_judge.Prelude.{
  ℕ, ◌+◌, ◌≤◌, ◌≡◌, refl, sym, ap, ◌∙◌, inl, inr, Bool, true, false, List, [], ◌∷◌, ◌++◌, All,
  All-append, eqb, eqb_refl, eqb→eq, Bool-cases, arith, if◌then◌else◌,
}
use mikan_judge.Types.Contest.{DateTime}
use mikan_judge.Types.Records.{Uuid, Submission}
use mikan_judge.Types.Status.{running}
use mikan_judge.Db.{Database}
use mikan_judge.Db.Submission.{Json, inserted_row}
use mikan_judge.Db.Submission.Numbers.{number, number-append, number-fresh}
use mikan_judge.Worker.{JudgeJob}
use mikan_judge.Worker.Judge.Numbers.{set_status-Keeps, judge_in-Keeps}
use mikan_judge.Worker.Pool.{
  WorkerState, idle, received, judging, stopped, Pool, Event, Step, send, close, receive, shut_down,
  begin, finish, crash, sent_in, held, set_at, spawn_workers,
}
use mikan_judge.Worker.Pool.Held.{held-set_at, held-get, held-idle}
use mikan_judge.Api.{World}
use mikan_judge.Api.Sessions.{Session}
use mikan_judge.Api.Submit.Accepted.{Quiet, Stored}
use mikan_judge.Api.Submit.InContest.{contest_problem_submit-Ends}
use mikan_judge.Api.Submit.Direct.{problems_submit-Ends, api_submit-Stored}
use mikan_judge.Api.Submit.Judged.{fresh_id}
use mikan_judge.Site.{
  Post, contest_submit, problem_submit, submit, handle, world, behind, SiteStep, posted, worked,
  SiteRun, start, step,
}
use mikan_judge.Site.Calm.{
  Calm, register-IsCalm, login-IsCalm, logout-IsCalm, settings_post-IsCalm, change_password-IsCalm,
  delete_account-IsCalm,
}

-- The job is that of a submission in the table.
abbrev pub HasRow : Database → JudgeJob → Type 0
HasRow db job = 1 ≤ number job.id db.submissions

-- No id stands in two rows, and each job on the channel or with a worker is that of a submission.
pub record Sound (p : Pool) : Type 0 where
  pub unique : (id : Uuid) → number id p.db.submissions ≤ 1
  pub waiting : All (HasRow p.db) p.queue
  pub working : All (HasRow p.db) (held p.workers)

-- No submission has gone.
abbrev Grows : Database → Database → Type 0
Grows db db' = (id : Uuid) → number id db.submissions ≤ number id db'.submissions

still :
    (db db' : Database) (jobs : List JudgeJob)
    → Grows db db'
    → All (HasRow db) jobs
    → All (HasRow db') jobs
still db db' [] g h = tt
still db db' (job ∷ jobs) g h = (omega (arith, h.0, g job.id), still db db' jobs g h.1)

same-Grows :
    (db db' : Database)
    → ((id : Uuid) → number id db'.submissions ≡ number id db.submissions)
    → Grows db db'
same-Grows db db' same id = omega (arith, same id)

module _ (p : Pool) (s : Sound p) (session : Session) (w : World) where
  Calm-Sound : Calm (world session p) w → Sound (behind w p)
  Calm-Sound c =
      let g = same-Grows p.db w.db c.rows in
      record {
        unique = λ id. rw (c.rows id) (s.unique id);
        waiting = rw c.queue (still p.db w.db p.queue g s.waiting);
        working = still p.db w.db (held p.workers) g s.working;
      }

  Quiet-Sound : Quiet (world session p) w → Sound (behind w p)
  Quiet-Sound q = Calm-Sound (record { queue = q.queue; rows = λ id. ap (number id) q.rows })

  module _ (now : DateTime) (sub : Submission) (job : JudgeJob) (left : Session)
      (same : job.id ≡ sub.id) (t : Stored now sub job left (world session p) w) where
    counted :
        (id : Uuid)
        → number id w.db.submissions ≡ number id p.db.submissions + (if eqb sub.id id then 1 else 0)
    counted id =
        ap (number id) t.rows
        ∙ omega (arith, number-append id p.db.submissions (inserted_row now sub ∷ []))

    counted_as :
        (id : Uuid) {b : Bool}
        → eqb sub.id id ≡ b
        → number id w.db.submissions ≡ number id p.db.submissions + (if b then 1 else 0)
    counted_as id e =
        counted id ∙ ap {B = ℕ} (λ b. number id p.db.submissions + (if b then 1 else 0)) e

    grows : Grows p.db w.db
    grows id = omega (arith, counted id)

    fresh : number sub.id p.db.submissions ≡ 0
    fresh = number-fresh sub.id p.db.submissions (fresh_id p.db sub t.fits)

    one : (id : Uuid) → number id w.db.submissions ≤ 1
    one id = elim (Bool-cases (eqb sub.id id)) [
      | inl own ↦
          let none_yet = ap (λ i. number i p.db.submissions) (sym (eqb→eq sub.id id own)) ∙ fresh in
          omega (arith, counted_as id own, none_yet)
      | inr other ↦ omega (arith, counted_as id other, s.unique id)
    ]

    own_row : HasRow w.db job
    own_row =
        let own : eqb sub.id job.id ≡ true = rw same (eqb_refl sub.id) in
        omega (arith, counted_as job.id own)

    queued : (is_open : Bool) → All (HasRow w.db) (if is_open then p.queue ++ job ∷ [] else p.queue)
    queued true =
        All-append (HasRow w.db) p.queue (job ∷ []) (still p.db w.db p.queue grows s.waiting)
          (own_row, tt)
    queued false = still p.db w.db p.queue grows s.waiting

    Stored-Sound : Sound (behind w p)
    Stored-Sound = record {
      unique = one;
      waiting = rw t.queue (queued p.is_open);
      working = still p.db w.db (held p.workers) grows s.working;
    }

calm : (w : World) → Calm w w
calm w = record { queue = refl; rows = λ id. refl }

handle-Sound :
    (p : Pool) (session : Session) (r : Post)
    → Sound p
    → Sound (behind (handle r (world session p)).1 p)
unfolding handle
handle-Sound p session (Post.register argon2 new_id form) s =
    Calm-Sound p s session _ (register-IsCalm argon2 new_id form _ _ (calm (world session p)))
handle-Sound p session (Post.login argon2 form) s =
    Calm-Sound p s session _ (login-IsCalm argon2 form _ _ (calm (world session p)))
handle-Sound p session Post.logout s =
    Calm-Sound p s session _ (logout-IsCalm _ _ (calm (world session p)))
handle-Sound p session (Post.settings language) s =
    Calm-Sound p s session _ (settings_post-IsCalm language _ _ (calm (world session p)))
handle-Sound p session (Post.change_password argon2 current new) s =
    Calm-Sound p s session _
      (change_password-IsCalm argon2 current new _ _ (calm (world session p)))
handle-Sound p session (Post.delete_account argon2 password) s =
    Calm-Sound p s session _ (delete_account-IsCalm argon2 password _ _ (calm (world session p)))
handle-Sound p session (contest_submit rq contest_id problem_id form) s =
    elim (contest_problem_submit-Ends rq contest_id problem_id form (world session p)) [
      | inl quiet ↦ Quiet-Sound p s session _ quiet
      | inr taken_in ↦ Stored-Sound p s session _ _ _ _ _ refl taken_in.stored
    ]
handle-Sound p session (problem_submit rq problem_id form) s =
    elim (problems_submit-Ends rq problem_id form (world session p)) [
      | inl quiet ↦ Quiet-Sound p s session _ quiet
      | inr taken_in ↦ Stored-Sound p s session _ _ _ _ _ refl taken_in.stored
    ]
handle-Sound p session (submit rq req) s = elim (api_submit-Stored rq req (world session p)) [
  | inl quiet ↦ Quiet-Sound p s session _ quiet
  | inr (small, stored) ↦ Stored-Sound p s session _ _ _ _ _ refl stored
]

-- A worker goes on with other tables that no submission has gone from.
move :
    (p : Pool) (i : ℕ) (next : WorkerState) (db : Database)
    → ((id : Uuid) → number id db.submissions ≡ number id p.db.submissions)
    → All (HasRow p.db) (held (next ∷ []))
    → Sound p
    → Sound (record p { workers = set_at i next p.workers; db = db })
move p i next db kept own s =
    let g = same-Grows p.db db kept in
    record {
      unique = λ id. rw (kept id) (s.unique id);
      waiting = still p.db db p.queue g s.waiting;
      working =
          held-set_at (HasRow db) i next p.workers (still p.db db (held (next ∷ [])) g own)
            (still p.db db (held p.workers) g s.working);
    }

module _ (json : Json) where
  work-Sound :
      (e : Event) (p q : Pool) → Step json p e q → sent_in (e ∷ []) ≡ [] → Sound p → Sound q
  work-Sound e p q (send job o room) quiet s = cc
  work-Sound e p q close quiet s = record {
    unique = s.unique;
    waiting = s.waiting;
    working = s.working;
  }
  work-Sound e p q (receive i job rest at is) quiet s =
      let both = subst (All (HasRow p.db)) is s.waiting in
      record {
        unique = s.unique;
        waiting = both.1;
        working = held-set_at (HasRow p.db) i (received job) p.workers (both.0, tt) s.working;
      }
  work-Sound e p q (shut_down i at none_left closed) quiet s =
      move p i stopped p.db (λ id. refl) tt s
  work-Sound e p q (begin i job at) quiet s =
      move p i (judging job) _ (λ id. set_status-Keeps id job.id running p.db)
        (held-get (HasRow p.db) i (received job) p.workers at s.working) s
  work-Sound e p q (finish i job host at fine) quiet s =
      move p i idle _ (λ id. judge_in-Keeps id json host job host.tempdir p.db) tt s
  work-Sound e p q (crash i job host at bad) quiet s =
      move p i stopped _ (λ id. judge_in-Keeps id json host job host.tempdir p.db) tt s

  step-Sound : (p q : Pool) → SiteStep json p q → Sound p → Sound q
  step-Sound p q (posted r session) s = handle-Sound p session r s
  step-Sound p q (worked {e = e} working quiet) s = work-Sound e p q working quiet s

  run_on-Sound : (p : Pool) {q : Pool} → SiteRun json p q → Sound p → Sound q
  run_on-Sound p start s = s
  run_on-Sound p (step {q = q} {r = r} before last) s =
      step-Sound q r last (run_on-Sound p before s)

-- In whatever order requests are handled and workers go on, and whichever queries fail, no id stands
-- in two rows of `submissions`, and each job on the channel or with a worker is that of a submission
-- in the table, if no id stood in two rows when the workers were started.
pub run-Sound :
    (json : Json) (num_workers : ℕ) (db : Database) {p : Pool}
    → ((id : Uuid) → number id db.submissions ≤ 1)
    → SiteRun json (spawn_workers num_workers db) p
    → Sound p
unfolding spawn_workers
run-Sound json num_workers db unique run =
    run_on-Sound json (spawn_workers num_workers db) run
      (record { unique = unique; waiting = tt; working = held-idle (HasRow db) num_workers })
