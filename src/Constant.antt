-- ===== src/Constant.antt =====
-- enova/common/constant.py: the enumerations. Each is a type with its constructors, and the texts
-- that its members stand for, in a record that every enumeration fills.
use enova.Prelude.{String, List, [], ◌∷◌, Option, none, some, if◌then◌else◌, str_eq}

-- An enumeration: its members in their order (`__members__`), and the value of each.
pub record Enum (A : Type 0) : Type 0 where
  pub members : List A
  pub value : A → String

abbrev texts : {A : Type 0} → (A → String) → List A → List String
texts value [] = []
texts value (x ∷ xs) = value x ∷ texts value xs

-- `Enum.values()`.
unfoldable pub values : {A : Type 0} → Enum A → List String
values e = texts e.value e.members

abbrev find : {A : Type 0} → (A → String) → String → List A → Option A
find value v [] = none
find value v (x ∷ xs) = if str_eq (value x) v then some x else find value v xs

-- `Enum(value)`: the first member with this value; `none` is the ValueError.
unfoldable pub of_value : {A : Type 0} → Enum A → String → Option A
of_value e v = find e.value v e.members

pub data ServingBackend : Type 0 where
  hf vllm : ServingBackend

abbrev pub serving_backend : Enum ServingBackend
serving_backend = record {
  members = ServingBackend.hf ∷ ServingBackend.vllm ∷ [];
  value = elim [ ServingBackend.hf ↦ "hf" | ServingBackend.vllm ↦ "vllm" ];
}

pub data HttpMethod : Type 0 where
  get_ post put delete : HttpMethod

abbrev pub http_method : Enum HttpMethod
http_method = record {
  members = HttpMethod.get_ ∷ HttpMethod.post ∷ HttpMethod.put ∷ HttpMethod.delete ∷ [];
  value = elim [
    | HttpMethod.get_ ↦ "get"
    | HttpMethod.post ↦ "post"
    | HttpMethod.put ↦ "put"
    | HttpMethod.delete ↦ "delete"
  ];
}

pub data OrderBy : Type 0 where
  asc desc : OrderBy

abbrev pub order_by : Enum OrderBy
order_by = record {
  members = OrderBy.asc ∷ OrderBy.desc ∷ [];
  value = elim [ OrderBy.asc ↦ "asc" | OrderBy.desc ↦ "desc" ];
}

pub data ApiServerType : Type 0 where
  enova_algo enova_app : ApiServerType

abbrev pub api_server_type : Enum ApiServerType
api_server_type = record {
  members = ApiServerType.enova_algo ∷ ApiServerType.enova_app ∷ [];
  value = elim [ ApiServerType.enova_algo ↦ "enova_algo" | ApiServerType.enova_app ↦ "enova_app" ];
}

pub data DeployMode : Type 0 where
  compose local : DeployMode

abbrev pub deploy_mode : Enum DeployMode
deploy_mode = record {
  members = DeployMode.compose ∷ DeployMode.local ∷ [];
  value = elim [ DeployMode.compose ↦ "compose" | DeployMode.local ↦ "local" ];
}

pub data TrafficDistributionType : Type 0 where
  gaussian poisson : TrafficDistributionType

abbrev pub traffic_distribution_type : Enum TrafficDistributionType
traffic_distribution_type = record {
  members = TrafficDistributionType.gaussian ∷ TrafficDistributionType.poisson ∷ [];
  value = elim [
    | TrafficDistributionType.gaussian ↦ "gaussian"
    | TrafficDistributionType.poisson ↦ "poisson"
  ];
}

pub data DurationUnitType : Type 0 where
  second minute hour : DurationUnitType

abbrev pub duration_unit_type : Enum DurationUnitType
duration_unit_type = record {
  members = DurationUnitType.second ∷ DurationUnitType.minute ∷ DurationUnitType.hour ∷ [];
  value = elim [
    | DurationUnitType.second ↦ "sec"
    | DurationUnitType.minute ↦ "min"
    | DurationUnitType.hour ↦ "hour"
  ];
}

pub data DeployStatus : Type 0 where
  unknown pending running failed finished : DeployStatus

abbrev pub deploy_status : Enum DeployStatus
deploy_status = record {
  members =
      DeployStatus.unknown ∷ DeployStatus.pending ∷ DeployStatus.running ∷ DeployStatus.failed
      ∷ DeployStatus.finished ∷ [];
  value = elim [
    | DeployStatus.unknown ↦ "unknown"
    | DeployStatus.pending ↦ "pending"
    | DeployStatus.running ↦ "running"
    | DeployStatus.failed ↦ "failed"
    | DeployStatus.finished ↦ "finsihed"
  ];
}

pub data TestStatus : Type 0 where
  unknown init success failed running finished : TestStatus

abbrev pub test_status : Enum TestStatus
test_status = record {
  members =
      TestStatus.unknown ∷ TestStatus.init ∷ TestStatus.success ∷ TestStatus.failed
      ∷ TestStatus.running ∷ TestStatus.finished ∷ [];
  value = elim [
    | TestStatus.unknown ↦ "unknown"
    | TestStatus.init ↦ "init"
    | TestStatus.success ↦ "success"
    | TestStatus.failed ↦ "failed"
    | TestStatus.running ↦ "running"
    | TestStatus.finished ↦ "finished"
  ];
}

pub data ServeStatus : Type 0 where
  unknown off_line normal abnormal : ServeStatus

abbrev pub serve_status : Enum ServeStatus
serve_status = record {
  members =
      ServeStatus.unknown ∷ ServeStatus.off_line ∷ ServeStatus.normal ∷ ServeStatus.abnormal ∷ [];
  value = elim [
    | ServeStatus.unknown ↦ "unknown"
    | ServeStatus.off_line ↦ "off_line"
    | ServeStatus.normal ↦ "normal"
    | ServeStatus.abnormal ↦ "abnormal"
  ];
}

pub data Distribution : Type 0 where
  normal poisson : Distribution

abbrev pub distribution : Enum Distribution
distribution = record {
  members = Distribution.normal ∷ Distribution.poisson ∷ [];
  value = elim [ Distribution.normal ↦ "normal" | Distribution.poisson ↦ "poisson" ];
}

pub data VllmMode : Type 0 where
  normal openai : VllmMode

abbrev pub vllm_mode : Enum VllmMode
vllm_mode = record {
  members = VllmMode.normal ∷ VllmMode.openai ∷ [];
  value = elim [ VllmMode.normal ↦ "normal" | VllmMode.openai ↦ "openai" ];
}

-- `HttpMethod.methods_with_body()`.
abbrev pub methods_with_body : List String
methods_with_body = http_method.value HttpMethod.post ∷ http_method.value HttpMethod.put ∷ []
