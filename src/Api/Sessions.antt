-- ===== src/Api/Sessions.antt =====
-- The session of a request, as tower_sessions gives it to the handlers of src/api/handlers.rs, and
-- their readings of it with the times of the last submissions.
pub mod Cooldown
use mikan_judge.Prelude.{
  ◌/◌, String, Bool, Option, none, some, List, [], ◌∷◌, ◌==◌, unwrap_or, and_then, ltb,
  if◌then◌else◌,
}
use mikan_judge.Prelude.Int.{ℤ, pos, ◌-ℤ◌, ltb_ℤ}
use mikan_judge.Types.Contest.{DateTime}
use mikan_judge.Types.Records.{Uuid}

-- The values that the handlers store, by their types.
pub data SessionValue : Type 0 where
  user : Uuid → SessionValue
  millis : ℤ → SessionValue

-- The entries by their keys; `none` where the store could not be read.
abbrev pub Session : Type 0
Session = Option (List (String × SessionValue))

abbrev pub as_user : SessionValue → Option Uuid
as_user (user id) = some id
as_user (millis t) = none

abbrev pub as_millis : SessionValue → Option ℤ
as_millis (user id) = none
as_millis (millis t) = some t

-- The entry of a key; the newest one counts.
unfoldable pub lookup : String → List (String × SessionValue) → Option SessionValue
lookup key [] = none
lookup key ((k, v) ∷ entries) = if k == key then some v else lookup key entries

-- `session.get(key).await.ok().flatten()`, as the type that `read` reads.
abbrev pub get : {A : Type 0} → (SessionValue → Option A) → String → Session → Option A
get read key session = and_then session (λ entries. and_then (lookup key entries) read)

-- `let _ = session.insert(key, value).await`
unfoldable pub insert : String → SessionValue → Session → Session
insert key v none = none
insert key v (some entries) = some ((key, v) ∷ entries)

abbrev pub current_user_id : Session → Option Uuid
current_user_id session = get as_user "user_id" session

-- `DateTime::timestamp_millis`
abbrev pub timestamp_millis : DateTime → ℤ
timestamp_millis t = pos (t / 1_000_000)

pub remaining_after : (elapsed cooldown_ms : ℤ) → ℤ
remaining_after elapsed cooldown_ms =
    if ltb_ℤ elapsed cooldown_ms then cooldown_ms -ℤ elapsed else pos 0

-- `now` is what the call reads from the clock.
unfoldable pub check_submit_cooldown : Session → String → (cooldown_ms : ℤ) → (now : DateTime) → ℤ
unfolding remaining_after
check_submit_cooldown session key cooldown_ms now =
    let last_ms = unwrap_or (get as_millis key session) (pos 0) in
    remaining_after (timestamp_millis now -ℤ last_ms) cooldown_ms

unfoldable pub record_submit_time : String → (now : DateTime) → Session → Session
unfolding insert
record_submit_time key now session = insert key (millis (timestamp_millis now)) session
