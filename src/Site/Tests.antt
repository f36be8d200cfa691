-- ===== src/Site/Tests.antt =====
-- One submission that a worker receives, and the theorem about such runs.
use mikan_judge.Prelude.{◌≤◌, refl, ap, [], arith}
use mikan_judge.Types.Status.{exact}
use mikan_judge.Types.Records.{Uuid}
use mikan_judge.Db.Submission.Numbers.{number}
use mikan_judge.Problem.Tests.{problem_a}
use mikan_judge.Worker.Pool.{Pool, received, set_at, spawn_workers, receive}
use mikan_judge.Api.Tests.{rq, form, site, contest, passes}
use mikan_judge.Api.Views.Tests.{viewing}
use mikan_judge.Api.Submit.{contest_job}
use mikan_judge.Api.Submit.Stores.{contest_problem_submit-eq}
use mikan_judge.Site.{contest_submit, handle, world, behind, SiteRun, start, step, posted, worked}
use mikan_judge.Site.Sound.{Sound, run-Sound}

abbrev begun : Pool
begun = spawn_workers 1 site.db

abbrev submitted : Pool
submitted = behind (handle (contest_submit rq "c" "a" form) (world site.session begun)).1 begun

abbrev taken_up : Pool
taken_up = record submitted {
  queue = [];
  workers = set_at 0 (received (contest_job rq form exact problem_a)) submitted.workers;
}

run : SiteRun viewing.json begun taken_up
unfolding spawn_workers handle
run = step (step start (posted (contest_submit rq "c" "a" form) site.session)) (
    worked
      (receive 0 (contest_job rq form exact problem_a) [] refl (
        ap (λ r. r.1.queue)
          (contest_problem_submit-eq rq "c" "a" form site 3 contest problem_a passes)))
      refl)

empty : (id : Uuid) → number id site.db.submissions ≤ 1
empty id = omega arith

run-Sound_example : Sound taken_up
run-Sound_example = run-Sound viewing.json 1 site.db empty run
