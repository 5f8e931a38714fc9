-- ===== src/Database/Engine/Sqlite.antt =====
-- The two URLs of a sqlite engine (enova/database/relation/transaction/session.py).
use Prim.Native.String.{◌++◌ as str_append}
use enova.Prelude.{◌≡◌, ◌∙◌, ap, String, true, [], ◌∷◌, Option, some, if◌then◌else◌}
use enova.Value.{Value, text, Fields, get_value, set, truthy}
use enova.Database.Engine.{
  sqlite, DbEngine, Library, new_engine, protocol_of, aio_protocol_of, concat, get_or, sqlite_url,
  name_database,
}

-- The two URLs, where the first property is read before the second.
abbrev pub urls : {E : Type 0} → Library E → DbEngine E → Option String × Option String
urls l e = let (protocol, e') = protocol_of l e in (protocol, (aio_protocol_of l e').0)

-- The file that a database of this name has in the directory of the dict.
abbrev pub file_of : {E : Type 0} → Library E → Fields → Value → String
file_of l d database =
    concat ("/" ∷ l.str (get_or "data_dir" (text "/tmp") d) ∷ "/" ∷ l.str database ∷ ".db" ∷ [])

url_named :
    {E : Type 0} (l : Library E) (scheme : String) (d : Fields)
    → truthy (get_value "database" d) ≡ true
    → sqlite_url l scheme d ≡ str_append scheme (file_of l d (get_value "database" d))
url_named l scheme d named =
    ap
      (λ b.
        if b
        then str_append scheme (file_of l d (get_value "database" d))
        else str_append scheme "/mydatabase.db")
      named

abbrev default_named : Fields → Fields
default_named d = set "database" (text "mydatabase") d

-- A sqlite engine whose dict names a database: both of its URLs name the same file.
pub urls-named :
    {E : Type 0} (l : Library E) (d : Fields)
    → truthy (get_value "database" d) ≡ true
    → urls l (new_engine sqlite d) ≡ (
      some (str_append "sqlite://" (file_of l d (get_value "database" d))),
      some (str_append "sqlite+aiosqlite://" (file_of l d (get_value "database" d))),
    )
unfolding protocol_of aio_protocol_of
urls-named l d named =
    let same : name_database d ≡ d = ap (λ b. if b then d else default_named d) named in
    ap (λ e. (some (sqlite_url l "sqlite://" d), some (sqlite_url l "sqlite+aiosqlite://" e))) same
    ∙ ap (λ u. (some u, some (sqlite_url l "sqlite+aiosqlite://" d)))
        (url_named l "sqlite://" d named)
    ∙ ap (λ u. (some (str_append "sqlite://" (file_of l d (get_value "database" d))), some u))
        (url_named l "sqlite+aiosqlite://" d named)
