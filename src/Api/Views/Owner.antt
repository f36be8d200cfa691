-- ===== src/Api/Views/Owner.antt =====
-- Who is shown a submission's page in its contest (`contest_submission_detail` of
-- src/api/handlers.rs), for every schedule of outages.
use mathlib.Core.Option
use mikan_judge.Prelude.{
  ◌≡◌, ◌≢◌, refl, sym, ◌⊎◌, inl, inr, String, true, false, not, ◌&&◌, Option, none, some, List, eqb,
  eqb→eq, Bool-cases, find, ◌==◌, arith,
}
use mikan_judge.Prelude.Outcome.{Outcome, ok, err, panic, out_of_fuel}
use mikan_judge.Types.Status.{is_heuristic}
use mikan_judge.Types.Contest.{
  Contest, ContestProblem, ContestStatus, upcoming, ongoing, past, status,
}
use mikan_judge.Types.Records.{Uuid}
use mikan_judge.Db.{ContestRow, SubmissionRow}
use mikan_judge.Db.Outages.{query-Queried}
use mikan_judge.Db.Contest.{into_contest, get_by_id, problems_for_contest}
use mikan_judge.Db.Contest
use mikan_judge.Db.Submission.{into_submission, find_row}
use mikan_judge.Db.Submission
use mikan_judge.Api.{Response, detail, failure, forbidden, locked, World, Handler, resolve}
use mikan_judge.Api.Contexts.{Detail}
use mikan_judge.Api.Sessions.{current_user_id}
use mikan_judge.Api.Views.{
  Viewing, forbid, show, lock, label_in, with_username, is_owner, is_ongoing, detail_of,
  contest_page, contest_sub, contest_begun, contest_seen, contest_submission_detail,
}

detail_inj : {c d : Detail} → detail c ≡ detail d → c ≡ d
detail_inj e = cc

module _ (P : Response → Type 0) where
  with_username-answer :
      (k : Option String → Handler) (viewer : Option Uuid) (w : World)
      → ((name : Option String) (w' : World) → P (k name w').0)
      → P (with_username k viewer w).0
  unfolding with_username
  with_username-answer k none w h = h none w
  with_username-answer k (some id) w h = h _ _

  resolve-answer :
      {A : Type 0} (o : Outcome A) (k : A → Handler) (w : World)
      → ((e : String) → P (failure e))
      → P Response.aborted
      → ((a : A) → o ≡ ok a → P (k a w).0)
      → P (resolve failure o k w).0
  resolve-answer (ok a) k w bad down h = h a refl
  resolve-answer (err e) k w bad down h = bad e
  resolve-answer panic k w bad down h = down
  resolve-answer out_of_fuel k w bad down h = down

module _ (v : Viewing) (contest_id : String) (id : Uuid) (contests : List ContestRow)
    (submissions : List SubmissionRow) (viewer : Option Uuid) where
  -- The submission's user is the one who is logged in.
  abbrev pub Owns : SubmissionRow → Type 0
  Owns r = (uid : Uuid) × (r.user_id ≡ some uid) × (viewer ≡ some uid)

  -- The contest has begun, and the page is that of the submission's row; at the second reading of
  -- the clock the contest is not on or the viewer is the owner.
  pub record Shown (d : Detail) : Type 0 where
    pub contest : Contest
    pub row : SubmissionRow
    pub label : String
    pub name : Option String
    pub found : Option.map into_contest (find (λ r. r.id == contest_id) contests) ≡ some contest
    pub begun : status contest v.first_reading ≢ upcoming
    pub stored : find_row id submissions ≡ some row
    pub allowed : (is_ongoing (status contest v.second_reading) ≡ false) ⊎ Owns row
    pub page :
        d
        ≡ detail_of v
            (some (contest_id, contest.title))
            label
            true
            (is_heuristic contest.judge_type)
            (into_submission v.json row)
            name

  abbrev P : Response → Type 0
  P answer = (d : Detail) → answer ≡ detail d → Shown d

  forbidden-P : (title : String) (name : Option String) → P (forbidden contest_id title name)
  forbidden-P title name d e = absurd cc

  locked-P :
      (contest : Contest) (path : String) (name : Option String) → P (locked contest path name)
  locked-P contest path name d e = absurd cc

  failure-P : (m : String) → P (failure m)
  failure-P m d e = absurd cc

  aborted-P : P Response.aborted
  aborted-P d e = absurd cc

  owner_or :
      (s : ContestStatus) (r : SubmissionRow) (user_id : Option Uuid)
      → r.user_id ≡ user_id
      → (seen : Option Uuid) → viewer ≡ seen
      → (is_ongoing s && not (is_owner user_id seen)) ≡ false
      → (is_ongoing s ≡ false) ⊎ Owns r
  unfolding is_owner
  owner_or upcoming r user_id e seen k h = inl refl
  owner_or past r user_id e seen k h = inl refl
  owner_or ongoing r none e seen k h = cc
  owner_or ongoing r (some uid) e none k h = cc
  owner_or ongoing r (some uid) e (some seen) k h = elim (Bool-cases (eqb uid seen)) [
    | inl same ↦ inr (uid, e, rw (eqb→eq uid seen same) k)
    | inr other ↦ absurd (ground (arith, h, other))
  ]

  module _ (contest : Contest)
      (found : Option.map into_contest (find (λ r. r.id == contest_id) contests) ≡ some contest)
      (begun : status contest v.first_reading ≢ upcoming) where
    page-P :
        (r : SubmissionRow) (cps : List ContestProblem) (w : World)
        → find_row id submissions ≡ some r
        → viewer ≡ current_user_id w.session
        → P (contest_page v contest_id id contest (into_submission v.json r) cps w).0
    unfolding contest_page into_submission
    page-P r cps w stored seen =
        elim (Bool-cases (
          is_ongoing (status contest v.second_reading)
          && not (is_owner r.user_id (current_user_id w.session)))) [
            | inl hidden ↦ rw hidden (
                with_username-answer P (forbid v contest_id id contest) (current_user_id w.session)
                  w (λ name w'. forbidden-P contest.title name))
            | inr open_now ↦ rw open_now (
                with_username-answer P (show v contest_id id contest (into_submission v.json r) cps)
                  (current_user_id w.session) w
                  (λ name w' d e. record {
                    contest = contest;
                    row = r;
                    label = label_in r.problem_id cps;
                    name = name;
                    found = found;
                    begun = begun;
                    stored = stored;
                    allowed =
                        owner_or (status contest v.second_reading) r r.user_id refl
                          (current_user_id w.session) seen open_now;
                    page = sym (detail_inj e);
                  }))
          ]

    sub-P :
        (o : Option SubmissionRow) (w : World)
        → find_row id submissions ≡ o
        → viewer ≡ current_user_id w.session
        → P (contest_sub v contest_id id contest (Option.map (into_submission v.json) o) w).0
    unfolding contest_sub
    sub-P none w stored seen = failure-P _
    sub-P (some r) w stored seen =
        resolve-answer P (problems_for_contest contest_id w.db).0
          (contest_page v contest_id id contest (into_submission v.json r)) _ failure-P aborted-P
          (λ cps _.
            page-P r cps (record w { db = (problems_for_contest contest_id w.db).1 }) stored seen)

    got-P :
        (w : World)
        → w.db.submissions ≡ submissions
        → viewer ≡ current_user_id w.session
        → P
            (resolve failure
              (Submission.get_by_id v.json id w.db).0
              (contest_sub v contest_id id contest)
              (record w { db = (Submission.get_by_id v.json id w.db).1 })).0
    unfolding Submission.get_by_id
    got-P w same seen =
        let (os, answer) = query-Queried (Submission.get_query v.json id) w.db in
        elim answer [
          | inl (m, failed) ↦ rw failed (failure-P m)
          | inr done ↦ rw done (sub-P (find_row id w.db.submissions) _ (rw same refl) seen)
        ]

  begun-P :
      (contest : Contest)
      → Option.map into_contest (find (λ r. r.id == contest_id) contests) ≡ some contest
      → (s : ContestStatus) → status contest v.first_reading ≡ s
      → (w : World) → w.db.submissions ≡ submissions
      → viewer ≡ current_user_id w.session
      → P (contest_begun v contest_id id contest s w).0
  unfolding contest_begun
  begun-P contest found upcoming e w same seen =
      with_username-answer P (lock v contest_id id contest) (current_user_id w.session) w
        (λ name w'. locked-P contest _ name)
  begun-P contest found ongoing e w same seen = got-P contest found (λ u. cc) w same seen
  begun-P contest found past e w same seen = got-P contest found (λ u. cc) w same seen

  seen-P :
      (found : Option Contest)
      → Option.map into_contest (find (λ r. r.id == contest_id) contests) ≡ found
      → (w : World) → w.db.submissions ≡ submissions
      → viewer ≡ current_user_id w.session
      → P (contest_seen v contest_id id found w).0
  unfolding contest_seen
  seen-P none e w same seen = failure-P _
  seen-P (some contest) e w same seen =
      begun-P contest e (status contest v.first_reading) refl w same seen

-- The page of a submission in a contest is shown only once the contest has begun, and, by the later
-- reading of the clock, only while the contest is not on or to the submission's own user.
pub contest_submission_detail-Shown :
    (v : Viewing) (contest_id : String) (id : Uuid) (w : World) (d : Detail)
    → (contest_submission_detail v contest_id id w).0 ≡ detail d
    → Shown v contest_id id w.db.contests w.db.submissions (current_user_id w.session) d
unfolding contest_submission_detail Contest.get_by_id
contest_submission_detail-Shown v contest_id id w =
    let (os, answer) = query-Queried (Contest.get_query contest_id) w.db in
    elim answer [
      | inl (m, failed) ↦
          rw failed
            (failure-P v contest_id id w.db.contests w.db.submissions (current_user_id w.session) m)
      | inr done ↦ rw done (
          seen-P v contest_id id w.db.contests w.db.submissions (current_user_id w.session)
            (Option.map into_contest (find (λ r. r.id == contest_id) w.db.contests)) refl _ refl
            refl)
    ]
