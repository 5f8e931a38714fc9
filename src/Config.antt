-- ===== src/Config.antt =====
-- `Config` of enova/common/config.py: the map of the command line, the map of the configuration, the
-- environment and the defaults.
pub mod Defaults
pub mod Merge
pub mod Environ
mod Examples
use Prim.Native.Char.{Char, code}
use Prim.Native.String.{String, char_at}
use enova.Prelude.{
  starts_with, ℕ, zero, suc, ◌-◌, Bool, true, false, ◌&&◌, List, [], ◌∷◌, Option, none, some,
  if◌then◌else◌, str_eq, leb, ◌==◌,
}
use enova.Prelude.Text.{codes}
use enova.Value.{Value, null, bool, text, dict, Fields, end, field, get, set, update}
use enova.App.Escaler.{◌>>=◌ as and_then}
use enova.Config.Defaults.{default_map}

-- `json.loads`, `int` and `float` of a text; `none` is their exception.
pub record Readers : Type 0 where
  pub loads : String → Option Value
  pub to_int : String → Option Value
  pub to_float : String → Option Value

abbrev or_try : Option Value → Option Value → Option Value
or_try none next = next
or_try (some v) next = some v

abbrev lower_char : Char → Char
lower_char c =
    if leb 65 (code c) && leb (code c) 90
    then char_at "abcdefghijklmnopqrstuvwxyz" (code c - 65)
    else c

-- `str.lower` on the ASCII letters.
abbrev pub lower : String → String
lower String.[] = ""
lower (String.◌∷◌ c s) = String.◌∷◌ (lower_char c) (lower s)

-- `s.replace(pattern, "")`: `skip` characters of an occurrence are still to be dropped.
abbrev erase : String → ℕ → ℕ → String → String
erase pattern size skip String.[] = ""
erase pattern size (suc skip) (String.◌∷◌ c s) = erase pattern size skip s
erase pattern size zero (String.◌∷◌ c s) =
    if starts_with (String.◌∷◌ c s) pattern
    then erase pattern size size s
    else String.◌∷◌ c (erase pattern size zero s)

-- The characters after the first `n`.
abbrev pub after : ℕ → String → String
after zero s = s
after (suc n) String.[] = ""
after (suc n) (String.◌∷◌ c s) = after n s

-- `proc_val` of a text.
unfoldable pub proc_val : Readers → String → Value
proc_val r value =
    if str_eq (lower value) "true"
    then bool true
    else if str_eq (lower value) "false"
    then bool false
    else elim (or_try (r.loads value) (or_try (r.to_int value) (r.to_float value))) [
      | none ↦ text value
      | some v ↦ v
    ]

unfoldable mutual
  -- `_update_if_exist(src_dct, dst_dct)`; `none` is its ValueError.
  pub update_if_exist : Fields → Fields → Option Fields
  update_if_exist end dst = some dst
  update_if_exist (field k v rest) dst =
      and_then (overlay v (get k dst)) (λ x. update_if_exist rest (set k x dst))

  -- What the loop stores for a key, by the entry that it has.
  pub overlay : Value → Option Value → Option Value
  overlay (dict v) (some (dict old)) = and_then (update_if_exist v old) (λ d. some (dict d))
  overlay (dict v) old = some (dict v)
  overlay v (some (dict old)) = none
  overlay v old = some v

-- `self.args_map` and `self.config_map`; the defaults are `default_map`.
pub record Config : Type 0 where
  pub args_map : Fields
  pub config_map : Fields

abbrev pub as_fields : Option Value → Fields
as_fields (some (dict d)) = d
as_fields _ = end

-- `self._update_if_exist(v, self.config_map.get(k, {}))` where `v` is a dict. An existing value that
-- is no dict has no keys to look in: an exception, but for an empty `v`.
abbrev pub merge_into : Value → Option Value → Option Value
merge_into (dict v) none = and_then (update_if_exist v end) (λ d. some (dict d))
merge_into (dict v) (some (dict old)) = and_then (update_if_exist v old) (λ d. some (dict d))
merge_into (dict end) (some old) = some old
merge_into (dict (field k v rest)) (some old) = none
merge_into v old = some v

abbrev pub special_key_prefixes : List String
special_key_prefixes =
    "api" ∷ "enova_app" ∷ "enova_algo" ∷ "traffic_injector" ∷ "cli" ∷ "enova_enode" ∷ []

-- The section that a key names, and the key in it.
abbrev pub section : List String → String → Option (String × String)
section [] k = none
section (p ∷ ps) k =
    let marked = Prim.Native.String.◌++◌ p "_" in
    if starts_with k marked then some (p, after (size marked) k) else section ps k
  where
    size : String → ℕ
    size String.[] = zero
    size (String.◌∷◌ c s) = suc (size s)

-- The value that goes into a section: where the section has a dict for the key, a dict is merged
-- into the section's entry of the empty text.
abbrev pub with_entry : Option Value → Option Value → Value → Option Value
with_entry (some (dict old)) blank v = merge_into v blank
with_entry _ blank v = some v

abbrev pub section_value : Fields → String → Value → Option Value
section_value fields k (dict d) = with_entry (get k fields) (get "" fields) (dict d)
section_value fields k v = some v

abbrev pub into_section : String → String → Value → Option Value → Fields → Option Fields
into_section name key v (some (dict fields)) config_map =
    and_then (section_value fields key v)
      (λ w. some (set name (dict (set key w fields)) config_map))
into_section name key v _ config_map = none

abbrev pub load_named : Option (String × String) → String → Value → Fields → Option Fields
load_named (some (name, key)) k v config_map =
    into_section name key v (get name config_map) config_map
-- The map has the new value already when it is merged with.
load_named none k v config_map =
    let stored = set k v config_map in
    and_then (merge_into v (get k stored)) (λ w. some (set k w stored))

-- One variable whose name starts with "EMERGINGAI", after its name and its value were read.
unfoldable pub load_variable : String → Value → Fields → Option Fields
load_variable k v config_map = load_named (section special_key_prefixes k) k v config_map

-- The name of a variable, as a key of the map.
unfoldable pub variable_key : String → String
variable_key k = lower (erase "EMERGINGAI_" 10 0 k)

unfoldable pub load_enviroments : Readers → List (String × String) → Fields → Option Fields
unfolding load_variable variable_key proc_val
load_enviroments r [] config_map = some config_map
load_enviroments r ((k, v) ∷ rest) config_map =
    if starts_with k "EMERGINGAI"
    then and_then (load_variable (variable_key k) (proc_val r v) config_map)
        (λ loaded. load_enviroments r rest loaded)
    else load_enviroments r rest
        (if str_eq k "HOSTNAME" then set (lower k) (text v) config_map else config_map)

-- The loop of `load_config` over the entries of a file.
unfoldable pub load_entries : Fields → Fields → Option Fields
unfolding update_if_exist
load_entries end config_map = some config_map
load_entries (field k v rest) config_map =
    and_then (merge_into v (get k config_map)) (λ w. load_entries rest (set k w config_map))

-- `file` is what the file holds, `none` where there is no file.
unfoldable pub load_config :
    Readers → List (String × String) → Option Fields → Fields → Option Fields
unfolding load_entries load_enviroments
load_config r environ none config_map = load_enviroments r environ config_map
load_config r environ (some file) config_map =
    and_then (load_entries file config_map) (load_enviroments r environ)

abbrev present : Fields → Fields
present end = end
present (field k null rest) = present rest
present (field k v rest) = field k v (present rest)

unfoldable pub load_args : Fields → Config → Config
load_args args c = record c { args_map = update c.args_map (present args) }

-- `update_config`: a dict is merged only into a dict.
unfoldable pub update_config : Fields → Fields → Option Fields
unfolding update_if_exist
update_config end config_map = some config_map
update_config (field k v rest) config_map = elim (get k config_map) [
  | some (dict old) ↦
      and_then (merge_into v (some (dict old))) (λ w. update_config rest (set k w config_map))
  | _ ↦ update_config rest (set k v config_map)
]

abbrev variable : String → List (String × String) → Option String
variable k [] = none
variable k ((j, v) ∷ rest) = if str_eq j k then some v else variable k rest

-- `_inner_getattr`.
unfoldable pub inner_getattr : Readers → List (String × String) → Config → String → Value
unfolding proc_val
inner_getattr r environ c key = elim (get key c.args_map) [
  | some v ↦ v
  | none ↦ elim (get key c.config_map) [
    | some v ↦ v
    | none ↦ elim (variable key environ) [
      | some v ↦ proc_val r v
      | none ↦ elim (get key default_map) [ some v ↦ v | none ↦ null ]
    ]
  ]
]

-- `Config()`.
unfoldable pub init : Readers → List (String × String) → Option Config
unfolding load_enviroments
init r environ =
    and_then (load_enviroments r environ default_map)
      (λ m. some (record { args_map = end; config_map = m }))
