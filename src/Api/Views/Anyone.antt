-- ===== src/Api/Views/Anyone.antt =====
-- The page of a submission outside the contests: `submissions_detail` of
-- src/api/handlers.rs.
use mikan_judge.Prelude.{Option}
use mathlib.Core.Option
use mikan_judge.Types.Records.{Submission}
