-- ===== src/Db/Submission/RoundTrip.antt =====
-- Results written by `update_result` and read by `get_by_id` (src/db/submission.rs).
use mathlib.Core.Option
use mikan_judge.Prelude.{
  ℕ, ◌<◌, ◌^◌, ◌≡◌, refl, ap, ◌∙◌, String, Option, none, some, List, [], and_then, unwrap_or,
}
use mikan_judge.Prelude.Int.{to_i64, to_u64, to_u64-to_i64}
use mikan_judge.Prelude.Outcome.{ok}
use mikan_judge.Types.Status.Database.{erase, status_from_db-status_to_db}
use mikan_judge.Types.Records.{Uuid, Submission, TestcaseVerdict}
use mikan_judge.Db.{Database, SubmissionRow}
use mikan_judge.Db.Outages.{query-answers}
use mikan_judge.Db.Submission.{
  Json, Results, read_results, into_submission, with_results, find_row, get_query, get_by_id,
  update_result, update_rows,
}
use mikan_judge.Db.Submission.Rows.{find_row-update_rows}

-- A number that the 64 bits hold.
abbrev pub Fits : Option ℕ → Type 0
Fits none = Unit
Fits (some n) = n < 2 ^ 64

stored_number : (o : Option ℕ) → Fits o → Option.map to_u64 (Option.map to_i64 o) ≡ o
stored_number none h = refl
stored_number (some n) h = ap some (to_u64-to_i64 n h)

module _ (json : Json) where
  -- serde_json writes the verdicts, and reads what it has written.
  abbrev pub Reads : Option (List TestcaseVerdict) → Type 0
  Reads none = Unit
  Reads (some vs) =
      (s : String) × (json.write_verdicts vs ≡ some s) × (json.read_verdicts s ≡ some vs)

  read_back :
      (s : String) (vs : List TestcaseVerdict)
      → json.read_verdicts s ≡ some vs
      → read_results json s ≡ some vs
  unfolding read_results
  read_back s vs read = rw (read_results, read) refl

  stored_verdicts :
      (o : Option (List TestcaseVerdict))
      → Reads o
      → and_then (Option.map (λ v. unwrap_or (json.write_verdicts v) "") o) (read_results json) ≡ o
  stored_verdicts none h = refl
  stored_verdicts (some vs) (s, written, read) = rw written (read_back s vs read)

  -- The submission with the results, as far as the columns keep them.
  pub record Holds (res : Results) (sub : Submission) : Type 0 where
    pub status : sub.status ≡ erase res.status
    pub time_used_ms : sub.time_used_ms ≡ res.time_used_ms
    pub memory_used_kb : sub.memory_used_kb ≡ res.memory_used_kb
    pub stdout : sub.stdout ≡ res.stdout
    pub stderr : sub.stderr ≡ res.stderr
    pub testcase_results : sub.testcase_results ≡ res.testcase_results
    pub score : sub.score ≡ res.score

  into_submission-Holds :
      (res : Results) (r : SubmissionRow)
      → Fits res.time_used_ms
      → Fits res.memory_used_kb
      → Reads res.testcase_results
      → Holds res (into_submission json (with_results json res r))
  unfolding into_submission with_results
  into_submission-Holds res r time memory verdicts = record {
    status = status_from_db-status_to_db res.status;
    time_used_ms = stored_number res.time_used_ms time;
    memory_used_kb = stored_number res.memory_used_kb memory;
    stdout = refl;
    stderr = refl;
    testcase_results = stored_verdicts res.testcase_results verdicts;
    score = refl;
  }

  module _ (id : Uuid) (res : Results) (db : Database) (out : db.outages ≡ []) where
    abbrev written : Database
    written = record db { submissions = update_rows id (with_results json res) db.submissions }

    update_result-eq : update_result json id res db ≡ (ok tt, written)
    unfolding update_result
    update_result-eq = query-answers _ db out

    written-row :
        (r : SubmissionRow)
        → find_row id db.submissions ≡ some r
        → find_row id written.submissions ≡ some (with_results json res r)
    unfolding with_results
    written-row r found =
        find_row-update_rows id (with_results json res) (λ r. refl) db.submissions
        ∙ ap (Option.map (with_results json res)) found

    read-written :
        (r : SubmissionRow)
        → find_row id db.submissions ≡ some r
        → (get_by_id json id written).0 ≡ ok (some (into_submission json (with_results json res r)))
    unfolding get_by_id
    read-written r found =
        rw (query-answers (get_query json id) written out, written-row r found) refl

  -- Where the server answers, `get_by_id` returns the results that `update_result` has written to a
  -- row that is there, if the numbers fit in 64 bits and serde_json reads what it writes: all of
  -- them, but of the status only what its column keeps.
  pub get_by_id-update_result :
      (id : Uuid) (res : Results) (db : Database) (r : SubmissionRow)
      → db.outages ≡ []
      → find_row id db.submissions ≡ some r
      → Fits res.time_used_ms
      → Fits res.memory_used_kb
      → Reads res.testcase_results
      → (sub : Submission) × ((get_by_id json id (update_result json id res db).1).0
          ≡ ok (some sub))
        × Holds res sub
  get_by_id-update_result id res db r out found time memory verdicts = (
    into_submission json (with_results json res r),
    rw (update_result-eq id res db out) (read-written id res db out r found),
    into_submission-Holds res r time memory verdicts,
  )
