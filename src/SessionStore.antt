-- ===== src/SessionStore.antt =====
-- session_store.rs: the sessions of tower_sessions in a table of the database. An instant is a number
-- of nanoseconds since the Unix epoch, as everywhere; instants before it are not modelled.
pub mod Rows
pub mod Contract
pub mod Refines
pub mod Live
mod Tests
use mikan_judge.Prelude.{
  ℕ, ◌*◌, ◌/◌, String, Bool, true, false, not, Option, none, some, List, [], ◌∷◌, ◌++◌, map, ◌==◌,
  leb, ltb, find, filter_by, is_some, if◌then◌else◌,
}
use mikan_judge.Prelude.Outcome.{Outcome, ok, err, panic, out_of_fuel}
use mikan_judge.Types.Contest.{DateTime}
use mikan_judge.Db.{Database, Db, SessionRow, query}

-- A session's id by the text that `to_string` makes of it, which is all that the store uses.
abbrev pub SessionId : Type 0
SessionId = String

-- `tower_sessions::session::Record`; `values` is its field `data`, the map `Data` of its values.
pub record Record (Data : Type 0) : Type 0 where
  pub id : SessionId
  pub values : Data
  pub expiry_date : DateTime

pub data StoreError : Type 0 where
  encode decode backend : (message : String) → StoreError

-- `session_store::Result`
pub data StoreResult (A : Type 0) : Type 0 where
  done : A → StoreResult A
  failed : StoreError → StoreResult A

-- serde_json on the values of a session.
pub record DataJson (Data : Type 0) : Type 0 where
  pub to_string : Data → Outcome String
  pub from_str : String → Outcome Data

abbrev pub nanos : ℕ
nanos = 1_000_000_000

-- `OffsetDateTime::unix_timestamp`
abbrev pub unix_timestamp : DateTime → ℕ
unix_timestamp t = t / nanos

-- `OffsetDateTime::from_unix_timestamp`, up to the end of the year 9999.
unfoldable pub from_unix_timestamp : ℕ → Outcome DateTime
from_unix_timestamp s =
    if leb s 253_402_300_799 then ok (s * nanos) else err "timestamp out of range"

-- `.map_err(enc)`, `.map_err(dec)` and `.map_err(bk)`; serde_json and a query do not panic.
abbrev pub map_err : {A : Type 0} → (String → StoreError) → Outcome A → StoreResult A
map_err f (ok a) = done a
map_err f (err e) = failed (f e)
map_err f panic = failed (f "")
map_err f out_of_fuel = failed (f "")

abbrev pub Store : Type 0 → Type 0
Store A = Database → StoreResult A × Database

abbrev pub chain : {A B : Type 0} → StoreResult A → (A → Store B) → Store B
chain (done a) k db = k a db
chain (failed e) k db = (failed e, db)

abbrev pub asked : {A B : Type 0} → Db A → (A → Store B) → Store B
asked q k db = let (r, db') = q db in chain (map_err backend r) k db'

abbrev pub row_of : SessionId → List SessionRow → Option SessionRow
row_of id rows = find (λ r. r.id == id) rows

-- `INSERT … ON CONFLICT (id) DO UPDATE SET data = $2, expiry_unix = $3`
abbrev pub upsert : SessionRow → List SessionRow → List SessionRow
upsert new rows =
    if is_some (row_of new.id rows)
    then map (λ r. if r.id == new.id then new else r) rows
    else rows ++ new ∷ []

abbrev pub save_query : SessionRow → Db (Unit {0})
save_query new db = (ok tt, record db { tower_sessions = upsert new db.tower_sessions })

abbrev pub row_query : SessionId → Db (Option SessionRow)
row_query id db = (ok (row_of id db.tower_sessions), db)

abbrev pub delete_query : SessionId → Db (Unit {0})
delete_query id db =
    (ok tt, record db { tower_sessions = filter_by (λ r. not (r.id == id)) db.tower_sessions })

unfoldable pub delete : SessionId → Store (Unit {0})
delete id = asked (query (delete_query id)) λ _ db. (done tt, db)

module _ {Data : Type 0} (json : DataJson Data) where
  unfoldable pub save : Record Data → Store (Unit {0})
  save r = chain (map_err encode (json.to_string r.values)) λ data_str.
      asked
        (query (
          save_query (record {
            id = r.id;
            data_str = data_str;
            expiry_unix = unix_timestamp r.expiry_date;
          })))
        λ _ db. (done tt, db)

  -- An expired session is deleted, whether or not the server does so, and is not there.
  pub expired : SessionId → Store (Option (Record Data))
  unfolding delete
  expired id db = (done none, (delete id db).1)

  abbrev decoded : SessionId → DateTime → String → Store (Option (Record Data))
  decoded id expiry_date data_str = chain (map_err decode (json.from_str data_str)) λ values db.
      (done (some (record { id = id; values = values; expiry_date = expiry_date })), db)

  abbrev dated : SessionId → (now : DateTime) → String → DateTime → Store (Option (Record Data))
  dated id now data_str expiry_date db =
      if ltb expiry_date now then expired id db else decoded id expiry_date data_str db

  abbrev pub loaded :
      SessionId → (now : DateTime) → Option SessionRow → Store (Option (Record Data))
  loaded id now none db = (done none, db)
  loaded id now (some r) db =
      chain (map_err decode (from_unix_timestamp r.expiry_unix)) (dated id now r.data_str) db

  -- `now` is what `OffsetDateTime::now_utc()` reads.
  unfoldable pub load : SessionId → (now : DateTime) → Store (Option (Record Data))
  unfolding from_unix_timestamp expired
  load id now = asked (query (row_query id)) (loaded id now)
