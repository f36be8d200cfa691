-- ===== src/Api/Contests/Begun.antt =====
-- What every page of a contest of src/api/handlers.rs begins with, where the server answers.
use mikan_judge.Prelude.{◌≡◌, ◌≢◌, refl, ◌∙◌, String, Option, none, some, []}
use mikan_judge.Types.Contest.{Contest, ContestStatus, upcoming, ongoing, past, status}
use mikan_judge.Types.Records.{Uuid}
use mikan_judge.Db.Outages.{query-answers}
use mikan_judge.Db.Contest
use mikan_judge.Db.Contest.{get_query}
use mikan_judge.Api.{Response, World, Handler}
use mikan_judge.Api.Sessions.{current_user_id}
use mikan_judge.Api.Submit.InContest.{contest_in}
use mikan_judge.Api.Views.{Viewing, with_username}
use mikan_judge.Api.Contests.{for_user, begun, known, with_contest}

with_username-named :
    (page : Option String → Response) (w : World) (viewer : Option Uuid)
    → (name : Option String) × ((with_username (λ name w'. (page name, w')) viewer w).0 ≡ page name)
unfolding with_username
with_username-named page w none = (none, refl)
with_username-named page w (some uid) = (_, refl)

-- A page that shows the user's name is that page under some name.
pub for_user-named :
    (page : Option String → Response) (w : World)
    → (name : Option String) × ((for_user page w).0 ≡ page name)
for_user-named page w = with_username-named page w (current_user_id w.session)

module _ (v : Viewing) (contest_id : String) (w : World) (answers : w.db.outages ≡ [])
    (contest : Contest) (found : contest_in contest_id w.db ≡ some contest) where
  -- Where the server answers, a page goes on with the contest that it finds and its status.
  pub with_contest-begun :
      (target : String) (next : Contest → Handler)
      → with_contest v contest_id target next w
        ≡ begun v contest_id target next contest (status contest v.first_reading) w
  unfolding with_contest known Contest.get_by_id
  with_contest-begun target next =
      rw (query-answers (get_query contest_id) w.db answers, found) refl

  goes_on :
      (target : String) (next : Contest → Handler) (s : ContestStatus)
      → s ≢ upcoming
      → begun v contest_id target next contest s w ≡ next contest w
  unfolding begun
  goes_on target next upcoming h = absurd (h refl)
  goes_on target next ongoing h = refl
  goes_on target next past h = refl

  -- Once the contest has begun, the page is shown.
  pub with_contest-next :
      (target : String) (next : Contest → Handler)
      → status contest v.first_reading ≢ upcoming
      → with_contest v contest_id target next w ≡ next contest w
  with_contest-next target next h =
      with_contest-begun target next ∙ goes_on target next (status contest v.first_reading) h
