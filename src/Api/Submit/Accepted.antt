-- ===== src/Api/Submit/Accepted.antt =====
-- What a submission leaves behind: the insert of src/db/submission.rs followed by the send on the
-- channel, for every schedule of outages.
use mikan_judge.Prelude.{
  ◌≡◌, refl, ap, ◌∙◌, ◌⊎◌, inl, inr, Bool, true, false, List, [], ◌∷◌, ◌++◌, Option, String, arith,
  if◌then◌else◌,
}
use mikan_judge.Prelude.Outcome.{Outcome, ok, err}
use mikan_judge.Types.Contest.{DateTime}
use mikan_judge.Types.Records.{Submission}
use mikan_judge.Db.{Database}
use mikan_judge.Db.Outages.{with_outages, query-Queried}
use mikan_judge.Db.Submission.{insert, insert_query, inserted_row, violates, violation}
use mikan_judge.Worker.{JudgeJob}
use mikan_judge.Api.{Response, World, Handler, resolve, with_db}
use mikan_judge.Api.Sessions.{Session}
use mikan_judge.Api.Submit.{send}

-- The state holds no new submission and no new job, and the session is as it was.
pub record Quiet (w w' : World) : Type 0 where
  pub rows : w'.db.submissions ≡ w.db.submissions
  pub queue : w'.queue ≡ w.queue
  pub session : w'.session ≡ w.session

-- The state holds one new row, and its job at the end of the queue unless the channel is closed.
pub record Stored (now : DateTime) (sub : Submission) (job : JudgeJob) (left : Session)
    (w w' : World) : Type 0 where
  pub fits : violates w.db sub ≡ false
  pub rows : w'.db.submissions ≡ w.db.submissions ++ inserted_row now sub ∷ []
  pub queue : w'.queue ≡ (if w.is_open then w.queue ++ job ∷ [] else w.queue)
  pub session : w'.session ≡ left

pub Quiet-refl : (w : World) → Quiet w w
Quiet-refl w = record { rows = refl; queue = refl; session = refl }

-- What an insert does to the table.
abbrev Inserts : DateTime → Submission → Database → Outcome (Unit {0}) × Database → Type 0
Inserts now sub db (r, db') =
    ((e : String) × (r ≡ err e) × (db'.submissions ≡ db.submissions))
    ⊎ ((r ≡ ok tt)
        × (violates db sub ≡ false)
        × (db'.submissions ≡ db.submissions ++ inserted_row now sub ∷ []))

module _ (now : DateTime) (sub : Submission) (db : Database) where
  inserted :
      (b : Bool)
      → violates db sub ≡ b
      → (os : List (Option String))
      → Inserts now sub db (
          if b then (err violation, with_outages os db) else (
            ok tt,
            record (with_outages os db) {
              submissions = db.submissions ++ inserted_row now sub ∷ [];
            },
          ))
  inserted true e os = inl (violation, refl, refl)
  inserted false e os = inr (refl, e, refl)

  insert-Inserts : Inserts now sub db (insert now sub db)
  unfolding insert violates
  insert-Inserts =
      let (os, answer) = query-Queried (insert_query now sub) db in
      elim answer [
        | inl (e, same) ↦ rw same (inl (e, refl, refl))
        | inr same ↦ rw same (inserted (violates db sub) refl os)
      ]

module _ (now : DateTime) (sub : Submission) (job : JudgeJob) (session : Session)
    (on_error : String → Response) (next : Handler) (w : World) where
  -- A handler that has inserted goes on with `next`, which sends the job.
  abbrev Sends : Type 0
  Sends =
      (w' : World)
      → w'.is_open ≡ w.is_open
      → w'.queue ≡ w.queue
      → w'.session ≡ w.session
      → ((next w').1.db ≡ w'.db)
        × ((next w').1.queue ≡ (if w.is_open then w.queue ++ job ∷ [] else w.queue))
        × ((next w').1.session ≡ session)

  go_on :
      (answer : Outcome (Unit {0}) × Database)
      → Inserts now sub w.db answer
      → Sends
      → Quiet w (resolve on_error answer.0 (λ _. next) (record w { db = answer.1 })).1
        ⊎ Stored now sub job session w
            (resolve on_error answer.0 (λ _. next) (record w { db = answer.1 })).1
  go_on (r, db') (inl (e, failed, same)) h =
      rw failed (inl (record { rows = same; queue = refl; session = refl }))
  go_on (r, db') (inr (fine, good, same)) h =
      let (kept, queued, timed) = h (record w { db = db' }) refl refl refl in
      rw fine (
        inr (record {
          fits = good;
          rows = ap (λ d. d.submissions) kept ∙ same;
          queue = queued;
          session = timed;
        }))

  pub with_db-Stored :
      Sends
      → Quiet w (with_db on_error (insert now sub) (λ _. next) w).1
        ⊎ Stored now sub job session w (with_db on_error (insert now sub) (λ _. next) w).1
  with_db-Stored h = go_on (insert now sub w.db) (insert-Inserts now sub w.db) h

pub send-queue :
    (job : JudgeJob) (sent closed : Response) (w : World)
    → ((send job sent closed w).1.db ≡ w.db)
      × ((send job sent closed w).1.queue ≡ (if w.is_open then w.queue ++ job ∷ [] else w.queue))
      × ((send job sent closed w).1.session ≡ w.session)
unfolding send
send-queue job sent closed w = ground arith

pub queue_sent :
    (job : JudgeJob) (w w' : World)
    → w'.is_open ≡ w.is_open
    → w'.queue ≡ w.queue
    → (if w'.is_open then w'.queue ++ job ∷ [] else w'.queue)
      ≡ (if w.is_open then w.queue ++ job ∷ [] else w.queue)
queue_sent job w w' o q = rw (o, q) refl
