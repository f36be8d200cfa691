-- ===== src/Worker/Pool/Fifo.antt =====
-- The order of the jobs between the channel and the workers of src/worker/mod.rs.
use mathlib.Core.List.{append-nil, append_assoc}
use mikan_judge.Prelude.{
  ℕ, zero, suc, ◌+◌, ◌≤◌, ◌≡◌, refl, sym, ap, ◌∙◌, Bool, some, some_inj, List, [], ◌∷◌, ◌++◌,
  length, length-append, get_elem?, count, arith,
}
use mikan_judge.Db.{Database}
use mikan_judge.Db.Submission.{Json}
use mikan_judge.Worker.{JudgeJob}
use mikan_judge.Worker.Pool.{
  WorkerState, idle, received, judging, stopped, Pool, capacity, idle_workers, spawn_workers,
  set_at, Event, sent, taken, ended, silent, Step, send, close, receive, shut_down, begin, finish,
  crash, Run, start, step, sent_in, taken_in, ended_in, held,
}

sent_in-append : (es fs : List Event) → sent_in (es ++ fs) ≡ sent_in es ++ sent_in fs
sent_in-append [] fs = refl
sent_in-append (sent job ∷ es) fs = ap (λ js. job ∷ js) (sent_in-append es fs)
sent_in-append (taken job ∷ es) fs = sent_in-append es fs
sent_in-append (ended job ∷ es) fs = sent_in-append es fs
sent_in-append (silent ∷ es) fs = sent_in-append es fs

taken_in-append : (es fs : List Event) → taken_in (es ++ fs) ≡ taken_in es ++ taken_in fs
taken_in-append [] fs = refl
taken_in-append (taken job ∷ es) fs = ap (λ js. job ∷ js) (taken_in-append es fs)
taken_in-append (sent job ∷ es) fs = taken_in-append es fs
taken_in-append (ended job ∷ es) fs = taken_in-append es fs
taken_in-append (silent ∷ es) fs = taken_in-append es fs

ended_in-append : (es fs : List Event) → ended_in (es ++ fs) ≡ ended_in es ++ ended_in fs
ended_in-append [] fs = refl
ended_in-append (ended job ∷ es) fs = ap (λ js. job ∷ js) (ended_in-append es fs)
ended_in-append (sent job ∷ es) fs = ended_in-append es fs
ended_in-append (taken job ∷ es) fs = ended_in-append es fs
ended_in-append (silent ∷ es) fs = ended_in-append es fs

module _ (q : JudgeJob → Bool) where
  count-append : (xs ys : List JudgeJob) → count q (xs ++ ys) ≡ count q xs + count q ys
  count-append [] ys = omega arith
  count-append (x ∷ xs) ys = omega (arith, count-append xs ys)

  abbrev holds : WorkerState → ℕ
  holds s = count q (held (s ∷ []))

  held-cons :
      (s : WorkerState) (ws : List WorkerState)
      → count q (held (s ∷ ws)) ≡ holds s + count q (held ws)
  held-cons idle ws = omega arith
  held-cons (received job) ws = omega arith
  held-cons (judging job) ws = omega arith
  held-cons stopped ws = omega arith

  held-set_at :
      (i : ℕ) (s t : WorkerState) (ws : List WorkerState)
      → get_elem? ws i ≡ some s
      → count q (held (set_at i t ws)) + holds s ≡ count q (held ws) + holds t
  held-set_at i s t [] e = cc
  held-set_at zero s t (w ∷ ws) e =
      let same = some_inj e in rw same (omega (arith, held-cons s ws, held-cons t ws))
  held-set_at (suc i) s t (w ∷ ws) e =
      omega (arith, held-set_at i s t ws e, held-cons w ws, held-cons w (set_at i t ws))

  held-idle : (n : ℕ) → count q (held (idle_workers n)) ≡ 0
  held-idle zero = refl
  held-idle (suc n) = held-idle n

module _ (es : List Event) (p : Pool) where
  -- What was taken is what was sent first, the rest waits in the queue, and of what was taken the
  -- workers hold what has not ended.
  pub record Accounts : Type 0 where
    pub order : sent_in es ≡ taken_in es ++ p.queue
    pub balance :
        (q : JudgeJob → Bool)
        → count q (taken_in es) ≡ count q (ended_in es) + count q (held p.workers)
    pub room : length p.queue ≤ capacity

module _ (es : List Event) (e : Event) where
  balance-step :
      (q : JudgeJob → Bool) (ws ws' : List WorkerState)
      → count q (taken_in es) ≡ count q (ended_in es) + count q (held ws)
      → count q (taken_in (e ∷ [])) + count q (held ws)
        ≡ count q (ended_in (e ∷ [])) + count q (held ws')
      → count q (taken_in (es ++ e ∷ [])) ≡ count q (ended_in (es ++ e ∷ [])) + count q (held ws')
  balance-step q ws ws' h k = omega (
    arith,
    h,
    k,
    ap (count q) (taken_in-append es (e ∷ [])),
    count-append q (taken_in es) (taken_in (e ∷ [])),
    ap (count q) (ended_in-append es (e ∷ [])),
    count-append q (ended_in es) (ended_in (e ∷ [])),
  )

  order-step :
      (old new : List JudgeJob)
      → sent_in es ≡ taken_in es ++ old
      → old ++ sent_in (e ∷ []) ≡ taken_in (e ∷ []) ++ new
      → sent_in (es ++ e ∷ []) ≡ taken_in (es ++ e ∷ []) ++ new
  order-step old new h k =
      sent_in-append es (e ∷ [])
      ∙ ap (λ js. js ++ sent_in (e ∷ [])) h
      ∙ append_assoc (taken_in es) old (sent_in (e ∷ []))
      ∙ ap (λ js. taken_in es ++ js) k
      ∙ sym (append_assoc (taken_in es) (taken_in (e ∷ [])) new)
      ∙ ap (λ js. js ++ new) (sym (taken_in-append es (e ∷ [])))

module _ (json : Json) where
  step-Accounts :
      (es : List Event) (e : Event) (p r : Pool)
      → Step json p e r
      → Accounts es p
      → Accounts (es ++ e ∷ []) r
  step-Accounts es e p r (send job o room) a = record {
    order = order-step es e p.queue r.queue a.order refl;
    balance = λ q. balance-step es e q p.workers r.workers (a.balance q) (omega arith);
    room = omega (arith, length-append p.queue (job ∷ []), room);
  }
  step-Accounts es e p r close a = record {
    order = order-step es e p.queue r.queue a.order (append-nil p.queue);
    balance = λ q. balance-step es e q p.workers r.workers (a.balance q) (omega arith);
    room = a.room;
  }
  step-Accounts es e p r (receive i job rest at is) a = record {
    order = order-step es e p.queue r.queue a.order (append-nil p.queue ∙ is);
    balance = λ q.
        balance-step es e q p.workers r.workers (a.balance q)
          (omega (arith, held-set_at q i idle (received job) p.workers at));
    room = omega (arith, a.room, ap length is);
  }
  step-Accounts es e p r (shut_down i at none_left closed) a = record {
    order = order-step es e p.queue r.queue a.order (append-nil p.queue);
    balance = λ q.
        balance-step es e q p.workers r.workers (a.balance q)
          (omega (arith, held-set_at q i idle stopped p.workers at));
    room = a.room;
  }
  step-Accounts es e p r (begin i job at) a = record {
    order = order-step es e p.queue r.queue a.order (append-nil p.queue);
    balance = λ q.
        balance-step es e q p.workers r.workers (a.balance q)
          (omega (arith, held-set_at q i (received job) (judging job) p.workers at));
    room = a.room;
  }
  step-Accounts es e p r (finish i job host at fine) a = record {
    order = order-step es e p.queue r.queue a.order (append-nil p.queue);
    balance = λ q.
        balance-step es e q p.workers r.workers (a.balance q)
          (omega (arith, held-set_at q i (judging job) idle p.workers at));
    room = a.room;
  }
  step-Accounts es e p r (crash i job host at bad) a = record {
    order = order-step es e p.queue r.queue a.order (append-nil p.queue);
    balance = λ q.
        balance-step es e q p.workers r.workers (a.balance q)
          (omega (arith, held-set_at q i (judging job) stopped p.workers at));
    room = a.room;
  }

  start-Accounts : (n : ℕ) (db : Database) → Accounts [] (spawn_workers n db)
  unfolding spawn_workers
  start-Accounts n db = record {
    order = refl;
    balance = λ q. omega (arith, held-idle q n);
    room = omega arith;
  }

  -- However the workers and the senders interleave, the workers take the jobs in the order in which
  -- they were sent, every job that was sent was taken once or still waits, every job that was taken
  -- has ended once or is held by one worker, and at most 256 jobs wait.
  pub run-Accounts :
      (n : ℕ) (db : Database) {es : List Event} {p : Pool}
      → Run json (spawn_workers n db) es p
      → Accounts es p
  run-Accounts n db start = start-Accounts n db
  run-Accounts n db (step {es = es} {e = e} {q = q} {r = r} run last) =
      step-Accounts es e q r last (run-Accounts n db run)
