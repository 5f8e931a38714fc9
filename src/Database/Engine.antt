-- ===== src/Database/Engine.antt =====
-- enova/database/relation/transaction/session.py: engines, their router, and sessions.
pub mod Sqlite
use Prim.Native.String.{◌++◌ as str_append}
use enova.Prelude.{
  ℕ, String, Bool, true, false, ◌&&◌, List, [], ◌∷◌, Option, none, some, if◌then◌else◌, str_eq,
}
use enova.Prelude.Int.{pos}
use enova.Value.{
  Value, null, bool, int, text, dict, Fields, end, field, get, get_value, set, truthy,
}
use enova.Config.{lower}

pub data Kind : Type 0 where
  mysql postgresql sqlite : Kind

-- A `DBEngine`: its dict, and what it has made. `E` is an engine of sqlalchemy.
pub record DbEngine (E : Type 0) : Type 0 where
  pub kind : Kind
  pub db_config : Fields
  pub protocol : Option String
  pub aio_protocol : Option String
  pub engine : Option E

-- `str` is a text of a value in an f-string, and `create` and `create_async` are sqlalchemy's functions on
-- a URL and keywords.
pub record Library (E : Type 0) : Type 0 where
  pub str : Value → String
  pub create : String → Fields → E
  pub create_async : String → Fields → E

abbrev concat : List String → String
concat [] = ""
concat (s ∷ rest) = str_append s (concat rest)

-- `self.username` and the others: a missing key is a KeyError.
abbrev four :
    (String → String → String → String → String)
    → Option String
    → Option String
    → Option String
    → Option String
    → Option String
four f (some a) (some b) (some c) (some d) = some (f a b c d)
four f _ _ _ _ = none

abbrev item : {E : Type 0} → Library E → String → Fields → Option String
item l k d = elim (get k d) [ none ↦ none | some v ↦ some (l.str v) ]

abbrev server_url : {E : Type 0} → Library E → String → Fields → Option String
server_url l scheme d =
    four
      (λ user passwd host port.
        concat (scheme ∷ "://" ∷ user ∷ ":" ∷ passwd ∷ "@" ∷ host ∷ ":" ∷ port ∷ []))
      (item l "username" d) (item l "password" d) (item l "host" d) (item l "port" d)

abbrev with_database : {E : Type 0} → Library E → String → Fields → Option String → Option String
with_database l ending d none = none
with_database l ending d (some url) = some (
    concat (
      url
      ∷ "/"
      ∷ (if truthy (get_value "database" d) then l.str (get_value "database" d) else "")
      ∷ ending
      ∷ []))

-- `db_config.get(key, default)`.
abbrev get_or : String → Value → Fields → Value
get_or k default d = elim (get k d) [ none ↦ default | some v ↦ v ]

abbrev pub sqlite_url : {E : Type 0} → Library E → String → Fields → String
sqlite_url l scheme d =
    if truthy (get_value "database" d)
    then concat (
        scheme
        ∷ "/"
        ∷ l.str (get_or "data_dir" (text "/tmp") d)
        ∷ "/"
        ∷ l.str (get_value "database" d)
        ∷ ".db"
        ∷ [])
    else str_append scheme "/mydatabase.db"

-- The property `protocol`: its text, or `none` for a KeyError, and the engine as it leaves it. Without a
-- database, sqlite's names one in its dict.
abbrev keep_protocol : {E : Type 0} → DbEngine E → Option String → Option String × DbEngine E
keep_protocol e none = (none, e)
keep_protocol e (some url) = (some url, record e { protocol = some url })

abbrev name_database : Fields → Fields
name_database d =
    if truthy (get_value "database" d) then d else set "database" (text "mydatabase") d

abbrev new_protocol : {E : Type 0} → Library E → DbEngine E → Kind → Option String × DbEngine E
new_protocol l e mysql =
    keep_protocol e
      (with_database l "?charset=utf8mb4" e.db_config (server_url l "mysql+pymysql" e.db_config))
new_protocol l e postgresql =
    keep_protocol e
      (with_database l "" e.db_config (server_url l "postgresql+psycopg2" e.db_config))
new_protocol l e sqlite =
    keep_protocol (record e { db_config = name_database e.db_config })
      (some (sqlite_url l "sqlite://" e.db_config))

abbrev known_protocol :
    {E : Type 0} → Library E → DbEngine E → Option String → Option String × DbEngine E
known_protocol l e none = new_protocol l e e.kind
known_protocol l e (some url) = (some url, e)

unfoldable pub protocol_of : {E : Type 0} → Library E → DbEngine E → Option String × DbEngine E
protocol_of l e = known_protocol l e e.protocol

-- The property `aio_protocol`.
abbrev keep_aio : {E : Type 0} → DbEngine E → Option String → Option String × DbEngine E
keep_aio e none = (none, e)
keep_aio e (some url) = (some url, record e { aio_protocol = some url })

abbrev new_aio : {E : Type 0} → Library E → DbEngine E → Kind → Option String × DbEngine E
new_aio l e mysql =
    keep_aio e
      (with_database l "?charset=utf8mb4" e.db_config (server_url l "mysql+aiomysql" e.db_config))
new_aio l e postgresql =
    keep_aio e (with_database l "" e.db_config (server_url l "postgresql+asyncpg" e.db_config))
new_aio l e sqlite = keep_aio e (some (sqlite_url l "sqlite+aiosqlite://" e.db_config))

abbrev known_aio :
    {E : Type 0} → Library E → DbEngine E → Option String → Option String × DbEngine E
known_aio l e none = new_aio l e e.kind
known_aio l e (some url) = (some url, e)

unfoldable pub aio_protocol_of : {E : Type 0} → Library E → DbEngine E → Option String × DbEngine E
aio_protocol_of l e = known_aio l e e.aio_protocol

-- The keywords of an engine.
unfoldable pub keywords : Fields → Fields
keywords d =
    let echo = get_or "echo" (bool false) d in
    if truthy (get_value "is_file_based" d)
    then field "echo" echo end
    else field "pool_recycle" (get_or "pool_recycle" (int (pos 3600)) d)
        (field "pool_size" (get_or "pool_size" (int (pos 30)) d) (field "echo" echo end))

abbrev made_engine :
    {E : Type 0} → Library E → Fields → Option String × DbEngine E → Option E × DbEngine E
made_engine l d (none, e) = (none, e)
made_engine l d (some url, e) =
    let made = l.create url (keywords d) in (some made, record e { engine = some made })

abbrev known_engine : {E : Type 0} → Library E → DbEngine E → Option E → Option E × DbEngine E
known_engine l e none = made_engine l e.db_config (protocol_of l e)
known_engine l e (some made) = (some made, e)

unfoldable pub engine_of : {E : Type 0} → Library E → DbEngine E → Option E × DbEngine E
unfolding protocol_of keywords
engine_of l e = known_engine l e e.engine

-- The engines that a thread has, by their protocols.
abbrev pub Local : Type 0 → Type 0
Local E = List (String × E)

abbrev pub lookup : {A : Type 0} → String → List (String × A) → Option A
lookup k [] = none
lookup k ((j, a) ∷ rest) = if str_eq j k then some a else lookup k rest

-- `async_engine`: one for a protocol and a thread.
abbrev local_engine :
    {E : Type 0} → Library E → Local E → DbEngine E → String → Option E → E × Local E
local_engine l threads e url (some made) = (made, threads)
local_engine l threads e url none =
    let made = l.create_async url (keywords e.db_config) in
    (made, (str_append "async_engine-" url, made) ∷ threads)

abbrev by_aio :
    {E : Type 0}
    → Library E
    → Local E
    → Option String × DbEngine E
    → Option (E × Local E) × DbEngine E
by_aio l threads (none, e) = (none, e)
by_aio l threads (some url, e) =
    (some (local_engine l threads e url (lookup (str_append "async_engine-" url) threads)), e)

unfoldable pub async_engine_of :
    {E : Type 0} → Library E → Local E → DbEngine E → Option (E × Local E) × DbEngine E
unfolding aio_protocol_of keywords
async_engine_of l threads e = by_aio l threads (aio_protocol_of l e)

abbrev pub new_engine : {E : Type 0} → Kind → Fields → DbEngine E
new_engine kind d = record {
  kind = kind;
  db_config = d;
  protocol = none;
  aio_protocol = none;
  engine = none;
}

-- `DB_ENGINES`, by the names of the instances.
abbrev pub Engines : Type 0 → Type 0
Engines E = List (String × DbEngine E)

abbrev db_type_is : String → Value → Bool
db_type_is name (text t) = str_eq (lower t) name
db_type_is name _ = false

unfoldable pub engine_for : {E : Type 0} → Fields → DbEngine E
engine_for d =
    let db_type = get_value "db_type" d in
    if db_type_is "postgresql" db_type
    then new_engine postgresql d
    else if db_type_is "mysql" db_type
    then new_engine mysql d
    else new_engine sqlite (set "is_file_based" (bool true) d)

abbrev registered :
    {E : Type 0} → String → Engines E → Option Value → Option (DbEngine E) × Engines E
registered name engines (some (dict d)) = (some (engine_for d), (name, engine_for d) ∷ engines)
registered name engines _ = (none, engines)

abbrev found :
    {E : Type 0}
    → Fields
    → String
    → Engines E
    → Option (DbEngine E)
    → Option (DbEngine E) × Engines E
found databases name engines (some e) = (some e, engines)
found databases name engines none = registered name engines (get name databases)

-- `DBRouter.db_engine`; the first argument is `CONFIG.api["databases"]`.
unfoldable pub db_engine :
    {E : Type 0} → Fields → String → Engines E → Option (DbEngine E) × Engines E
unfolding engine_for
db_engine databases name engines = found databases name engines (lookup name engines)

abbrev pub has_engine : {E : Type 0} → String → Engines E → Bool
has_engine name engines = elim (lookup name engines) [ none ↦ false | some e ↦ true ]

abbrev pub set_custom_db_engine : {E : Type 0} → String → DbEngine E → Engines E → Engines E
set_custom_db_engine name e engines = (name, e) ∷ engines

abbrev pub set_custom_db_engine_by_config : {E : Type 0} → String → Fields → Engines E → Engines E
set_custom_db_engine_by_config name d engines =
    set_custom_db_engine name (new_engine mysql d) engines

-- What a session is asked for when its block ends.
pub data Ending : Type 0 where
  commit flush rollback close : Ending

-- `__exit__`, by whether the block raised and whether the commit and the flush do: the calls in their
-- order, and whether an exception leaves it.
unfoldable pub exit : Bool → Bool → Bool → List Ending × Bool
exit true commits flushes = (close ∷ [], true)
exit false false flushes = (commit ∷ rollback ∷ close ∷ [], true)
exit false true false = (commit ∷ flush ∷ rollback ∷ close ∷ [], true)
exit false true true = (commit ∷ flush ∷ close ∷ [], false)
