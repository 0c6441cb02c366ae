-- ===== src/Types/Policies.antt =====
-- The resource itself (`NamespaceLifecyclePolicy`). Its metadata are the fields of the API's
-- ObjectMeta that the source reads; `is_deleting` says that a deletion timestamp is set.
use app_lifecycle_kubernetes.Base.{ℕ, String, Bool}
use app_lifecycle_kubernetes.Base.Dict.{Dict}
use app_lifecycle_kubernetes.Types.Specs.{Spec}
use app_lifecycle_kubernetes.Types.Statuses.{Status}

pub record Metadata : Type 0 where
  pub name : String
  pub namespace : String
  pub uid : String
  pub creation_timestamp : ℕ
  pub is_deleting : Bool
  pub annotations : Dict String

pub record Policy : Type 0 where
  pub metadata : Metadata
  pub open metadata use *
  pub spec : Spec
  pub status : Status
