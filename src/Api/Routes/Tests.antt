-- ===== src/Api/Routes/Tests.antt =====
-- The pages of one contest before it begins, while it is on and once it is over.
use mikan_judge.Prelude.{
  max, ℕ, ◌≤◌, ◌≡◌, ◌≢◌, refl, String, Bool, true, Option, none, some, [], ◌∷◌, All, count, length,
  map, sort_by, decimal, format, text_leb,
}
use mikan_judge.Types.Contest.{DateTime, Contest, upcoming, status}
use mikan_judge.Types.Status.{heuristic, exact, judge_type_from_db}
use mikan_judge.Types.Records.{User}
use mikan_judge.Db.Contest
use mikan_judge.Db.Contest.{into_contest}
use mikan_judge.Api.{World, listing}
use mikan_judge.Api.Contexts.{StandingRow, Listing}
use mikan_judge.Api.Paging.{total_pages}
use mikan_judge.Api.Views.{Viewing}
use mikan_judge.Api.Views.Tests.{viewing, site, row}
use mikan_judge.Api.Sessions.{lookup}
use mikan_judge.Api.Lists.{contest_submissions_index, contest_submissions_my}
use mikan_judge.Api.Lists.Finished.{contest_submissions_index-restricted}
use mikan_judge.Api.Lists.Own.{OwnItem, own_rows, contest_submissions_my-OwnItem}
use mikan_judge.Problem.{
  load_one, load_testcases, load_testcase, with_defaults, split_extension, stem_of, expected_of,
}
use mikan_judge.Db.Lists.{group_by}
use mikan_judge.Api.Standings
use mikan_judge.Api.Standings.{in_front, rank_from, opens}
use mikan_judge.Api.Standings.Rows.{exact_row, fmt_elapsed, user_map}
use mikan_judge.Api.Standings.Tests.{ops}
use mikan_judge.Api.Standings.Ranks.{unranked}
use mikan_judge.Api.Standings.Table.{Tabling, contest_standings}
use mikan_judge.Api.Standings.Places.{values, whole_table, IsPage}
use mikan_judge.Api.Standings.Exact.{rows_by_map, row_by_submissions, contest_standings-row}
use mikan_judge.Api.Routes.{standings, handler_of, target_path}
use mikan_judge.Api.Routes.Locked.{LockedAt, handler_of-Locked}

abbrev at : DateTime → Viewing
at t = record viewing { first_reading = t; second_reading = t }

abbrev ann : User
ann = record { id = 3; username = "ann"; password_hash = "h"; default_language = none }

abbrev world : World
world = record site {
  db = record (site.db) {
    users = ann ∷ [];
    contest_problems =
        (record {
          contest_id = "c";
          problem = record { label = "A"; problem_id = "a"; display_order = 1 };
        })
        ∷ [];
  };
}

abbrev spring : Contest
spring = record {
  id = "c";
  title = "Spring";
  description = "";
  start_time = 100;
  end_time = 200;
  judge_type = exact;
}

abbrev tabling : Tabling
tabling = record {
  ops = ops;
  from_u64 = λ n. n;
  greatest = λ a b. max a b;
  solved_values = λ m. values m;
  score_values = λ m. values m;
}

-- ann, who has solved the one problem.
ann_first :
    map {B = ℕ × String × String × Option String}
      (λ r. (r.rank, r.username, r.total_score, r.elapsed_from_start))
      (whole_table
        (at 150)
        tabling
        "c"
        world
        spring
        none
        (rows_by_map (at 150) tabling "c" world spring none))
    ≡ (1, "ann", "100", some "0:00:00") ∷ []
unfolding Standings.standings in_front rank_from opens sort_by exact_row fmt_elapsed decimal format
    load_one load_testcases load_testcase with_defaults split_extension stem_of expected_of text_leb
    user_map group_by
ann_first = refl

handler_of-Locked_example :
    LockedAt spring
      (target_path (at 50) tabling "c" (standings none))
      (handler_of (at 50) tabling "c" (standings none) world).0
unfolding status Contest.into_contest judge_type_from_db
handler_of-Locked_example =
    handler_of-Locked (at 50) "c" world refl spring refl tabling refl (standings none)

begun : status spring 150 ≢ upcoming
unfolding status
begun h = cc

contest_submissions_index-restricted_example :
    (shown : Listing) × ((contest_submissions_index (at 150) "c" none world).0 ≡ listing shown)
    × (shown.submissions ≡ [])
    × (shown.is_restricted ≡ true)
    × (shown.total_pages ≡ 1)
unfolding status Contest.into_contest judge_type_from_db
contest_submissions_index-restricted_example =
    contest_submissions_index-restricted (at 150) "c" world refl spring refl begun none refl

contest_submissions_my-OwnItem_example :
    (l : Listing) × ((contest_submissions_my (at 150) "c" none world).0 ≡ listing l)
    × (l.total_pages ≡ total_pages (length (own_rows "c" 3 world.db)))
    × All (OwnItem ann) l.submissions
unfolding Contest.into_contest judge_type_from_db lookup
contest_submissions_my-OwnItem_example =
    contest_submissions_my-OwnItem (at 150) "c" world refl spring refl begun 3 ann refl refl none

contest_standings-row_example :
    IsPage
      (at 150)
      tabling
      "c"
      world
      spring
      none
      (rows_by_map (at 150) tabling "c" world spring none)
      (contest_standings (at 150) tabling "c" none world).0
    × ((p : StandingRow → Bool)
        → p (row_by_submissions (at 150) tabling "c" world spring none ann 3).row ≡ true
        → 1
          ≤ count
              (λ r. p (unranked r))
              (whole_table
                (at 150)
                tabling
                "c"
                world
                spring
                none
                (rows_by_map (at 150) tabling "c" world spring none)))
unfolding Contest.into_contest judge_type_from_db
contest_standings-row_example =
    contest_standings-row (at 150) tabling "c" world refl spring refl begun refl none (λ p m. refl)
      3 ann refl "a" 0 refl

abbrev optimisation : Contest
optimisation = record spring { judge_type = heuristic }

-- The same contest by score, with a submission of ann's that has 7 points.
abbrev by_score : World
by_score = record world {
  db = record (world.db) {
    contests =
        (record {
          id = "c";
          title = "Spring";
          description = "";
          start_time = 100;
          end_time = 200;
          judge_type = "heuristic";
        })
        ∷ [];
    submissions = record row { status = "scored"; score = some 7 } ∷ [];
  };
}
