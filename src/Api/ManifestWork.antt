-- ===== src/Api/ManifestWork.antt =====
-- ManifestWorks (open-cluster-management.io/api/work/v1): the fields that the program reads or
-- writes, and what it calls to decode them, as a parameter.
use sidekick.Prelude.{String, Bool, Option, List, Int32, Result}
use sidekick.Api.Meta.{ObjectMeta}
use sidekick.Api.Pod.{Pod}

-- A value of the feedback: a string, or raw JSON.
pub record FeedbackValue : Type 0 where
  pub name : String
  pub text : Option String
  pub json_raw : Option String

-- `runtime.RawExtension`: an object that was read is its JSON, one that is written is a value.
pub record Manifest (R : Type 0) : Type 0 where
  pub raw : String
  pub object : Option R

pub record ResourceIdentifier : Type 0 where
  pub group : String
  pub resource : String
  pub name : String
  pub namespace : String

pub record JsonPath : Type 0 where
  pub name : String
  pub path : String

pub record UpdateStrategy : Type 0 where
  pub kind : String
  pub force : Bool
  pub ignore_condition : String
  pub ignore_paths : List String

pub record ManifestConfigOption : Type 0 where
  pub resource_identifier : ResourceIdentifier
  pub feedback_kind : String
  pub json_paths : List JsonPath
  pub update_strategy : UpdateStrategy

pub record ManifestWorkSpec (R : Type 0) : Type 0 where
  pub manifests : List (Manifest R)
  pub manifest_configs : List ManifestConfigOption

-- A ManifestWork, with the feedback of each of its manifests.
pub record ManifestWork (R : Type 0) : Type 0 where
  pub metadata : ObjectMeta R
  pub open metadata use *
  pub spec : ManifestWorkSpec R
  pub feedbacks : List (List FeedbackValue)

-- `json.Unmarshal` into a pod, a map, a condition of a pod and a list of numbers, and
-- `runtime.DefaultUnstructuredConverter`.
pub record Codec (R : Type 0) : Type 0 where
  pub unmarshal_pod : String → Option (Pod R)
  pub unmarshal_map : String → Result R
  pub unmarshal_condition : String → Option R
  pub unmarshal_counts : String → Option (List Int32)
  pub from_unstructured : R → Result (Pod R)
  pub to_unstructured : Pod R → Result R
