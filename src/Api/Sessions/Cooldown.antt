-- ===== src/Api/Sessions/Cooldown.antt =====
-- The cooldown between two submissions of a session (src/api/handlers.rs).
use mikan_judge.Prelude.{
  ℕ, ◌+◌, ◌/◌, ◌≤◌, ◌≡◌, ◌↔◌, refl, String, false, some, List, ◌∷◌, eq_refl, arith,
}
use mikan_judge.Prelude.Int.{pos, ltb_ℤ, ◌-ℤ◌}
use mikan_judge.Types.Contest.{DateTime}
use mikan_judge.Api.Sessions.{
  SessionValue, millis, lookup, insert, timestamp_millis, remaining_after, check_submit_cooldown,
  record_submit_time,
}

module _ (key : String) (v : SessionValue) (entries : List (String × SessionValue)) where
  lookup-insert : lookup key ((key, v) ∷ entries) ≡ some v
  unfolding lookup
  lookup-insert = rw (eq_refl key) refl

remaining_after_iff :
    (now last wait : ℕ)
    → (ltb_ℤ (pos 0) (remaining_after (pos now -ℤ pos last) (pos wait)) ≡ false)
      ↔ (last + wait ≤ now)
unfolding remaining_after
remaining_after_iff now last wait = (λ h. ground arith, λ h. ground arith)

-- A session that recorded a submission at one moment lets the next one pass exactly from the moment
-- on at which the cooldown has gone by, in whole milliseconds.
pub check_submit_cooldown_iff :
    (entries : List (String × SessionValue)) (key : String) (earlier now : DateTime) (wait : ℕ)
    → (ltb_ℤ
          (pos 0)
          (check_submit_cooldown (record_submit_time key earlier (some entries)) key (pos wait) now)
        ≡ false)
      ↔ (earlier / 1_000_000 + wait ≤ now / 1_000_000)
unfolding check_submit_cooldown record_submit_time insert
check_submit_cooldown_iff entries key earlier now wait =
    rw (lookup-insert key (millis (timestamp_millis earlier)) entries)
      (remaining_after_iff (now / 1_000_000) (earlier / 1_000_000) wait)
