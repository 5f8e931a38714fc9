-- ===== src/Database/Examples.antt =====
-- The URLs of a sqlite engine that has no name for its database.
use enova.Prelude.{String}
use enova.Value.{Value, text, Fields, field, end}
use enova.Database.Engine.{Library}

abbrev str : Value → String
str (text s) = s
str _ = ""

abbrev library : Library (Unit {0})
library = record { str = str; create = λ _ _. tt; create_async = λ _ _. tt }

abbrev unnamed : Fields
unnamed = field "data_dir" (text "/var/enova") end
