-- ===== src/SessionStore/Contract.antt =====
-- The contract of the store of src/session_store.rs: a function from ids to the values of a session and
-- the second up to which they are kept.
use mikan_judge.Prelude.{ℕ, ◌*◌, Option, none, some, List, [], ◌∷◌, ◌==◌, ltb, if◌then◌else◌}
use mikan_judge.Types.Contest.{DateTime}
use mikan_judge.SessionStore.{SessionId, Record, nanos, unix_timestamp}

pub data Call (Data : Type 0) : Type 0 where
  saves : Record Data → Call Data
  deletes : SessionId → Call Data
  loads : SessionId → (now : DateTime) → Call Data

abbrev pub last_second : ℕ
last_second = 253_402_300_799

-- The values of each session, with the last second of its life.
abbrev pub Sessions : Type 0 → Type 0
Sessions Data = SessionId → Option (Data × ℕ)

module _ {Data : Type 0} where
  abbrev pub put : SessionId → Option (Data × ℕ) → Sessions Data → Sessions Data
  put id kept f q = if id == q then kept else f q

  abbrev pub found :
      SessionId
      → DateTime
      → Sessions Data
      → Option (Data × ℕ)
      → Option (Record Data) × Sessions Data
  found id now f none = (none, f)
  found id now f (some (values, second)) =
      if ltb (second * nanos) now
      then (none, put id none f)
      else (some (record { id = id; values = values; expiry_date = second * nanos }), f)

  -- What a call answers and leaves by the contract.
  unfoldable pub ideal : Call Data → Sessions Data → Option (Record Data) × Sessions Data
  ideal (saves r) f = (none, put r.id (some (r.values, unix_timestamp r.expiry_date)) f)
  ideal (deletes id) f = (none, put id none f)
  ideal (loads id now) f = found id now f (f id)

  unfoldable pub ideal_run :
      List (Call Data) → Sessions Data → List (Option (Record Data)) × Sessions Data
  unfolding ideal
  ideal_run [] f = ([], f)
  ideal_run (call ∷ calls) f =
      let (answer, f') = ideal call f in
      let (answers, f'') = ideal_run calls f' in (answer ∷ answers, f'')
