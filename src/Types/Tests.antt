-- ===== src/Types/Tests.antt =====
-- Tests of the types and instances of their theorems.
use mikan_judge.Prelude.{◌≡◌, refl}
use mikan_judge.Prelude.Int.{pos}
use mikan_judge.Types.Language.{python, from_db, to_db}
use mikan_judge.Types.Language.Database.{from_db-to_db}
use mikan_judge.Types.Status.{exact, runtime_error, status_from_db, status_to_db}
use mikan_judge.Types.Status.Database.{erase, status_from_db-status_to_db}
use mikan_judge.Types.Contest.{Contest}
use mikan_judge.Types.Version.{parse_version}

versions :
    (parse_version "python3" "Python 3.13.1\n" ≡ "3.13.1")
    × (parse_version "go" "go version go1.24.2 darwin/arm64\n" ≡ "1.24.2")
    × (parse_version "pypy3" "Python 3.11.15 (x)\n[PyPy 7.3.21 with GCC]" ≡ "7.3.21")
    × (parse_version "g++" "g++ (GCC) 14.2.0\nCopyright" ≡ "14.2.0")
    × (parse_version "cat" "" ≡ "")
unfolding parse_version
versions = (refl, refl, refl, refl, refl)

from_db-to_db_example : from_db (to_db python) ≡ python
from_db-to_db_example = from_db-to_db python

status_from_db-status_to_db_example :
    status_from_db (status_to_db (runtime_error (pos 139))) ≡ erase (runtime_error (pos 139))
status_from_db-status_to_db_example = status_from_db-status_to_db (runtime_error (pos 139))

abbrev spring : Contest
spring = record {
  id = "spring";
  title = "Spring";
  description = "";
  start_time = 1000;
  end_time = 2000;
  judge_type = exact;
}
