-- ===== src/Worker/Pool/Held.antt =====
-- What holds of each job that the workers of src/worker/mod.rs hold.
use mikan_judge.Prelude.{ℕ, zero, suc, ◌≡◌, some, some_inj, List, [], ◌∷◌, get_elem?, All}
use mikan_judge.Worker.{JudgeJob}
use mikan_judge.Worker.Pool.{
  WorkerState, idle, received, judging, stopped, idle_workers, set_at, held,
}

module _ (P : JudgeJob → Type 0) where
  abbrev pub One : WorkerState → Type 0
  One s = All P (held (s ∷ []))

  held-cons :
      (s : WorkerState) (ws : List WorkerState) → All P (held (s ∷ ws)) → One s × All P (held ws)
  held-cons idle ws h = (tt, h)
  held-cons (received job) ws h = ((h.0, tt), h.1)
  held-cons (judging job) ws h = ((h.0, tt), h.1)
  held-cons stopped ws h = (tt, h)

  cons-held :
      (s : WorkerState) (ws : List WorkerState) → One s → All P (held ws) → All P (held (s ∷ ws))
  cons-held idle ws o h = h
  cons-held (received job) ws o h = (o.0, h)
  cons-held (judging job) ws o h = (o.0, h)
  cons-held stopped ws o h = h

  pub held-set_at :
      (i : ℕ) (t : WorkerState) (ws : List WorkerState)
      → One t
      → All P (held ws)
      → All P (held (set_at i t ws))
  held-set_at i t [] o h = h
  held-set_at zero t (w ∷ ws) o h = cons-held t ws o (held-cons w ws h).1
  held-set_at (suc i) t (w ∷ ws) o h =
      cons-held w (set_at i t ws) (held-cons w ws h).0 (held-set_at i t ws o (held-cons w ws h).1)

  pub held-get :
      (i : ℕ) (s : WorkerState) (ws : List WorkerState)
      → get_elem? ws i ≡ some s
      → All P (held ws)
      → One s
  held-get i s [] e h = cc
  held-get zero s (w ∷ ws) e h = rw (← some_inj e) (held-cons w ws h).0
  held-get (suc i) s (w ∷ ws) e h = held-get i s ws e (held-cons w ws h).1

  pub held-idle : (n : ℕ) → All P (held (idle_workers n))
  held-idle zero = tt
  held-idle (suc n) = held-idle n
