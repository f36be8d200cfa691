-- ===== src/Types/Contest/Order.antt =====
-- The status of a contest over time.
use mikan_judge.Prelude.{ℕ, ◌≤◌, ◌≡◌, ◌↔◌, arith}
use mikan_judge.Types.Contest.{Contest, ContestStatus, DateTime, upcoming, ongoing, past, status}

abbrev pub stage : ContestStatus → ℕ
stage upcoming = 0
stage ongoing = 1
stage past = 2

-- As the clock goes on, a contest's status never goes back in the order upcoming, ongoing, past; it
-- is ongoing exactly from its start to its end, both included.
pub status_progress :
    (c : Contest) (now later : DateTime)
    → now ≤ later
    → (stage (status c now) ≤ stage (status c later))
      × ((status c now ≡ ongoing) ↔ ((c.start_time ≤ now) × (now ≤ c.end_time)))
unfolding status
status_progress c now later h = ground arith
