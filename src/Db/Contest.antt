-- ===== src/Db/Contest.antt =====
-- db/contest.rs: the queries on contests and their problems.
pub mod Grouped
use mathlib.Core.Option
use mikan_judge.Prelude.{
  ℕ, suc, String, Bool, Option, List, [], ◌∷◌, map, ◌==◌, leb, find, filter_by, sort_by,
}
use mikan_judge.Prelude.Outcome.{ok}
use mikan_judge.Types.Status.{judge_type_from_db}
use mikan_judge.Types.Contest.{
  DateTime, Contest, ContestProblem, ContestStatus, upcoming, ongoing, past, status,
}
use mikan_judge.Db.{Database, ContestRow, Db, query, ◌>>=◌}

unfoldable pub into_contest : ContestRow → Contest
into_contest r = record {
  id = r.id;
  title = r.title;
  description = r.description;
  start_time = r.start_time;
  end_time = r.end_time;
  judge_type = judge_type_from_db r.judge_type;
}

abbrev latest_first : ContestRow → ContestRow → Bool
latest_first r s = leb s.start_time r.start_time

unfoldable pub list_all : Db (List Contest)
unfolding into_contest
list_all = query λ db. (ok (map into_contest (sort_by latest_first db.contests)), db)

abbrev pub get_query : String → Db (Option Contest)
get_query contest_id db =
    (ok (Option.map into_contest (find (λ r. r.id == contest_id) db.contests)), db)

unfoldable pub get_by_id : String → Db (Option Contest)
unfolding into_contest
get_by_id contest_id = query (get_query contest_id)

abbrev pub problems_of : String → Database → List ContestProblem
problems_of contest_id db =
    sort_by (λ p q. leb p.display_order q.display_order)
      (map (λ r. r.problem) (filter_by (λ r. r.contest_id == contest_id) db.contest_problems))

abbrev pub problems_query : String → Db (List ContestProblem)
problems_query contest_id db = (ok (problems_of contest_id db), db)

unfoldable pub problems_for_contest : String → Db (List ContestProblem)
problems_for_contest contest_id = query (problems_query contest_id)

pub record ContestLists : Type 0 where
  pub ongoing : List Contest
  pub upcoming : List Contest
  pub past : List Contest

pub push_by : ContestStatus → Contest → ContestLists → ContestLists
push_by ContestStatus.ongoing c lists = record lists { ongoing = c ∷ lists.ongoing }
push_by ContestStatus.upcoming c lists = record lists { upcoming = c ∷ lists.upcoming }
push_by ContestStatus.past c lists = record lists { past = c ∷ lists.past }

-- The loop over the contests: `now` is what `status()` reads at the contest, which the loop has
-- reached after `i` others.
pub grouped_from : (ℕ → DateTime) → ℕ → List Contest → ContestLists
unfolding push_by
grouped_from now i [] = record { ongoing = []; upcoming = []; past = [] }
grouped_from now i (c ∷ cs) = push_by (status c (now i)) c (grouped_from now (suc i) cs)

abbrev pub soonest_first : Contest → Contest → Bool
soonest_first c d = leb c.start_time d.start_time

unfoldable pub grouped : (ℕ → DateTime) → List Contest → ContestLists
unfolding grouped_from
grouped now cs =
    let lists = grouped_from now 0 cs in
    record lists { upcoming = sort_by soonest_first lists.upcoming }

unfoldable pub list_grouped : (ℕ → DateTime) → Db ContestLists
unfolding list_all grouped
list_grouped now = do all ← list_all; λ db. (ok (grouped now all), db)
