-- ===== src/Types/Language/Database.antt =====
-- The texts of src/types.rs that stand for a language in the database.
use mikan_judge.Prelude.{String, ◌≡◌, refl, ◌≢◌, ◌↔◌, arith, eq_iff}
use mikan_judge.Types.Language.{Language, cpp, rust, python, pypy, java, go, text, to_db, from_db}

-- A language that is written to the database is read back as itself.
pub from_db-to_db : (l : Language) → from_db (to_db l) ≡ l
unfolding from_db to_db
from_db-to_db cpp = refl
from_db-to_db _ = refl

from_db-eq : (s : String) (l : Language) → l ≢ cpp → from_db s ≡ l → s ≡ to_db l
unfolding from_db to_db
from_db-eq s cpp h e = absurd (h refl)
from_db-eq s rust h e = ground (arith, eq_iff s "rust")
from_db-eq s python h e = ground (arith, eq_iff s "python")
from_db-eq s pypy h e = ground (arith, eq_iff s "pypy")
from_db-eq s java h e = ground (arith, eq_iff s "java")
from_db-eq s go h e = ground (arith, eq_iff s "go")
from_db-eq s text h e = ground (arith, eq_iff s "text")

-- A text is read as a language other than C++ exactly when it is the text that is written for that
-- language; so every other text is read as C++.
pub from_db-eq_iff : (s : String) (l : Language) → l ≢ cpp → (from_db s ≡ l) ↔ (s ≡ to_db l)
from_db-eq_iff s l h = (from_db-eq s l h, λ e. rw e (from_db-to_db l))
