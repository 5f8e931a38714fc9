-- ===== src/Config/Examples.antt =====
-- The theorems on enova/common/config.py at concrete dicts.
use enova.Prelude.{◌≡◌, refl, none, some}
use enova.Value.{text, dict, Fields, field, end, get}
use enova.Config.{update_if_exist, load_variable, as_fields}
use enova.Config.Merge.{Overlay, update_if_exist-Overlay}
use enova.Config.Environ.{entry, load_variable-drops}
use enova.Config.Defaults.{default_map}

abbrev databases : Fields
databases = field "default" (dict (field "database" (text "mine") end)) end

abbrev src : Fields
src =
    field "api" (dict (field "databases" (dict databases) end)) (field "app_name" (text "demo") end)

abbrev merged : Fields
merged = elim (update_if_exist src default_map) [ none ↦ end | some d ↦ d ]

update_if_exist-Overlay_example : Overlay (get "api" src) (get "api" default_map) (get "api" merged)
unfolding update_if_exist
update_if_exist-Overlay_example =
    update_if_exist-Overlay src default_map "api" {d = merged} (refl, (refl, tt)) refl

abbrev loaded : Fields
loaded = elim (load_variable "api_databases" (dict databases) default_map) [
  | none ↦ end
  | some d ↦ d
]

abbrev api : Fields
api = as_fields (get "api" default_map)

load_variable-drops_example :
    get "default" (as_fields (entry "api" "databases" loaded)) ≡ get "default" databases
unfolding load_variable update_if_exist
load_variable-drops_example =
    load_variable-drops "api_databases" "api" "databases" "default" databases
      (as_fields (get "databases" api)) api default_map {loaded = loaded} refl refl refl refl
      (refl, tt) refl
