-- ===== src/Types/Status/Database.antt =====
-- The texts of src/types.rs that stand for a status in the database.
use mikan_judge.Prelude.{◌≡◌, refl}
use mikan_judge.Prelude.Int.{negsuc}
use mikan_judge.Types.Status.{
  JudgeStatus, pending, runtime_error, compile_error, internal_error, status_to_db, status_from_db,
}

-- What the column keeps of a status: its kind.
abbrev pub erase : JudgeStatus → JudgeStatus
erase (runtime_error _) = runtime_error (negsuc 0)
erase (compile_error _) = compile_error ""
erase (internal_error _) = internal_error ""
erase s = s

-- A status that is written to the database is read back with its kind; the exit code is read as -1
-- and the messages as empty texts.
pub status_from_db-status_to_db : (s : JudgeStatus) → status_from_db (status_to_db s) ≡ erase s
unfolding status_from_db status_to_db
status_from_db-status_to_db pending = refl
status_from_db-status_to_db _ = refl
