-- ===== src/Command/Pilot.antt =====
-- `EnovaPilot` of enova/entry/command/pilot.py.
pub mod Health
use enova.Prelude.{
  ℕ, zero, suc, ◌+◌, String, Bool, true, false, List, [], ◌∷◌, Option, none, some, if◌then◌else◌,
  str_eq,
}
use enova.Value.{
  Value, null, text, dict, list, Items, nil, cons, Fields, end, field, get, get_value, truthy,
}
use enova.Command.Compose.{Desk, Action, pure, fail, or_fail, Docker, ◌>>=◌, ◌>>◌}
use enova.Command.Service.{Site, record_args}
use enova.Command.Service.Order.{Started}
use enova.Command.Service.Order

-- The calls of `EnovaAppApi`; `none` is an exception. `healthz` answers the n-th call.
pub record App : Type 0 where
  pub healthz : ℕ → Option Value
  pub create : Fields → Option Value
  pub get_enode : Fields → Option Value
  pub list_enodes : Fields → Option Value
  pub delete : Fields → Option Value

-- `assert healthz_res["status"] == "running"`.
abbrev is_text : Option Value → Bool
is_text (some (text s)) = str_eq s "running"
is_text _ = false

abbrev pub is_up : Option Value → Bool
is_up (some (dict d)) = is_text (get "status" d)
is_up _ = false

-- The loop over `range(n)` from the call `i`: whether `e` is set after it, and how often was asked.
unfoldable pub check : (ℕ → Option Value) → ℕ → ℕ → Bool → Bool × ℕ
check healthz zero i e = (e, i)
check healthz (suc n) i e =
    let rest = check healthz n (suc i) true in if is_up (healthz i) then (false, suc i) else rest

-- `default_app_healthz_check_count`; `e` is None at first.
abbrev pub check_health : App → ℕ → Bool × ℕ
check_health app count = check app.healthz count 0 false

abbrev name_or : Value → Value
name_or v = if truthy v then v else text "enova-enode"

abbrev in_dict : String → Value → Option Value
in_dict k (dict d) = get k d
in_dict k _ = none

-- `enode_info.get("extra", {})...get("container_infos")`; `none` is an AttributeError.
abbrev or_empty : Option Value → Value
or_empty none = dict end
or_empty (some v) = v

abbrev get_or_empty : String → Option Value → Option Value
get_or_empty k (some (dict d)) = some (or_empty (get k d))
get_or_empty k _ = none

abbrev get_or_none : String → Option Value → Option Value
get_or_none k (some (dict d)) = some (get_value k d)
get_or_none k _ = none

abbrev pub container_infos : Value → Option Value
container_infos info = get_or_none "container_infos" (
    get_or_empty "result"
      (get_or_empty "ret" (get_or_empty "get_deploy_ret" (get_or_empty "extra" (some info)))))

-- What the run shows: the logs of a container, or nothing.
pub data Shown : Type 0 where
  logs_of : Value → Shown
  nothing : Shown

abbrev by_id : Option Value → Option Shown
by_id none = none
by_id (some id) = some (if truthy id then logs_of id else nothing)

abbrev pub shown : Option Value → Option Shown
shown none = none
shown (some (list (cons info rest))) = by_id (get_or_none "ContainerId" (some info))
shown (some v) = if truthy v then none else some nothing

abbrev read_enode : App → Value → Option Shown
read_enode app id = elim (app.get_enode (field "instance_id" id end)) [
  | none ↦ none
  | some info ↦ shown (container_infos info)
]

-- The arguments of the command; `kwargs` has those that were not declared.
pub record Run : Type 0 where
  pub declared : Fields
  pub parameters : List String
  pub started : Started
  pub kwargs : Fields

abbrev app_params : Run → Value → Fields
app_params r model =
    field "instance_name" (name_or (get_value "name" r.kwargs))
      (field "model" model (field "backend_config" (dict r.kwargs) end))

abbrev created : App → Run → Value → Option Shown
created app r model = elim (app.create (app_params r model)) [
  | none ↦ none
  | some ret ↦ elim (in_dict "instance_id" ret) [ none ↦ none | some id ↦ read_enode app id ]
]

abbrev deploy : App → Run → Option Shown
deploy app r = elim (get "model" r.kwargs) [ none ↦ none | some model ↦ created app r model ]

-- `EnovaPilot.run`: the services are started, and the model is deployed when the application is up.
unfoldable pub run : Site → App → ℕ → Run → Action Shown
unfolding record_args check
run s app count r =
    record_args s "EnovaPilot" "run" ("self" ∷ r.parameters) (set_kwargs r.kwargs r.declared)
    >> Order.run s r.started
    >> or_fail (if (check_health app count).0 then none else deploy app r)
  where
    set_kwargs : Fields → Fields → Fields
    set_kwargs kwargs end = field "kwargs" (dict kwargs) end
    set_kwargs kwargs (field k v rest) = field k v (set_kwargs kwargs rest)

-- The ids that `stop` asks to delete, in order, and whether it came to the end of them. An exception of a
-- deletion is logged.
abbrev id_of : Value → Option Value
id_of v = in_dict "instance_id" v

unfoldable pub ids_of : Items → List Value × Bool
ids_of nil = ([], true)
ids_of (cons info rest) =
    let (ids, ended) = ids_of rest in
    elim (id_of info) [ none ↦ ([], false) | some id ↦ (id ∷ ids, ended) ]

abbrev listed : Option Value → List Value × Bool
listed (some (dict d)) = elim (get "data" d) [ some (list infos) ↦ ids_of infos | _ ↦ ([], false) ]
listed _ = ([], false)

-- `instance_id in ["all", None]`.
unfoldable pub deleted_ids : App → Option String → List Value × Bool
unfolding ids_of
deleted_ids app none = listed (app.list_enodes end)
deleted_ids app (some id) =
    if str_eq id "all" then listed (app.list_enodes end) else (text id ∷ [], true)

abbrev is_all : Option String → Bool
is_all none = false
is_all (some s) = str_eq s "all"

abbrev stop_services : Site → Option String → Bool → Action (Unit {0})
stop_services s service ended =
    or_fail (if ended then some tt else none) >> (if is_all service then Order.stop s else pure tt)

-- `EnovaPilot.stop`: what it asks to delete, and the stop of the services.
unfoldable pub stop :
    Site → App → Option String → Option String → Desk → List Value × (Option (Unit {0}) × Desk)
unfolding deleted_ids
stop s app instance_id service d =
    let (ids, ended) = deleted_ids app instance_id in (ids, stop_services s service ended d)
