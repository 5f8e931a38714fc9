-- ===== src/Config/Environ.antt =====
-- Environment variables that name a section (enova/common/config.py, `load_enviroments`).
use enova.Prelude.{◌≡◌, sym, ◌∙◌, ap, String, Option, none, some}
use enova.Value.{Value, null, bool, int, float, text, list, dict, Fields, end, get, set}
use enova.Value.Laws.{get-set_self}
use enova.Config.{
  update_if_exist, section, section_value, with_entry, into_section, load_named,
  special_key_prefixes, load_variable, as_fields, merge_into,
}
use enova.Config.Merge.{Distinct, Overlay, update_if_exist-Overlay, bind-eq-some}

-- The entry of the section and key.
abbrev pub entry : String → String → Fields → Option Value
entry name key config_map = get key (as_fields (get name config_map))

from_end : (o new : Option Value) → Overlay o none new → new ≡ o
from_end none new h = h
from_end (some null) new h = h
from_end (some (bool b)) new h = h
from_end (some (int n)) new h = h
from_end (some (float s)) new h = h
from_end (some (text s)) new h = h
from_end (some (list xs)) new h = h
from_end (some (dict d)) new h = h

value_drops :
    (fields v old : Fields) (key : String) {w : Value}
    → get key fields ≡ some (dict old)
    → get "" fields ≡ none
    → Distinct v
    → section_value fields key (dict v) ≡ some w
    → (d : Fields) × (w ≡ dict d) × ((j : String) → get j d ≡ get j v)
value_drops fields v old key there blank distinct h =
    let fresh : section_value fields key (dict v) ≡ merge_into (dict v) none =
      ap (λ o. with_entry o (get "" fields) (dict v)) there ∙ ap (merge_into (dict v)) blank in
    let (d, merged, is) =
      bind-eq-some (update_if_exist v end) (λ d. some (dict d)) (sym fresh ∙ h) in
    (d, cc, λ j. from_end (get j v) (get j d) (update_if_exist-Overlay v end j distinct merged))

entry_of :
    (name key : String) (d fields config_map : Fields) (w : Value) {loaded : Fields}
    → w ≡ dict d
    → ◌≡◌ {A = Option Fields} (some (set name (dict (set key w fields)) config_map)) (some loaded)
    → entry name key loaded ≡ some (dict d)
entry_of name key d fields config_map w {loaded} is stored =
    let same : set name (dict (set key w fields)) config_map ≡ loaded = cc in
    ap (λ m. entry name key m) (sym same)
    ∙ ap (λ o. get key (as_fields o)) (get-set_self name (dict (set key w fields)) config_map)
    ∙ get-set_self key w fields
    ∙ ap some is

-- A variable that holds a dict, with distinct keys, for a key of a section, where the section has a
-- dict for the key and nothing for the empty key: once it is loaded, the entries of the section's
-- dict are dropped, and the key has those of the variable alone.
pub load_variable-drops :
    (k name key j : String) (v old fields config_map : Fields) {loaded : Fields}
    → section special_key_prefixes k ≡ some (name, key)
    → get name config_map ≡ some (dict fields)
    → get key fields ≡ some (dict old)
    → get "" fields ≡ none
    → Distinct v
    → load_variable k (dict v) config_map ≡ some loaded
    → get j (as_fields (entry name key loaded)) ≡ get j v
unfolding load_variable
load_variable-drops k name key j v old fields config_map {loaded} named there has blank distinct h =
    let into : into_section name key (dict v) (some (dict fields)) config_map ≡ some loaded =
      sym (ap (λ o. into_section name key (dict v) o config_map) there)
      ∙ sym (ap (λ o. load_named o k (dict v) config_map) named)
      ∙ h in
    let (w, kept, stored) =
      bind-eq-some (section_value fields key (dict v))
        (λ w. some (set name (dict (set key w fields)) config_map)) into in
    let (d, is, entries) = value_drops fields v old key has blank distinct kept in
    ap (λ o. get j (as_fields o)) (entry_of name key d fields config_map w is stored) ∙ entries j
