-- ===== src/Api/Kube.antt =====
-- The Kubernetes objects that the controllers read and create, with the fields that they use
-- (the types of k8s-openapi and kube).
use kube_frontend_forge_cont.Common.{ℕ, Bool, String, Option, List, BTreeMap}
use kube_frontend_forge_cont.Api.Fields.{ℤ, DateTime}

pub record OwnerReference : Type 0 where
  pub api_version : String
  pub kind : String
  pub name : String
  pub uid : String
  pub controller : Option Bool

pub record ObjectMeta : Type 0 where
  pub name : Option String
  pub namespace : Option String
  pub uid : Option String
  pub generation : Option ℤ
  pub labels : Option (BTreeMap String)
  pub annotations : Option (BTreeMap String)
  pub owner_references : Option (List OwnerReference)
  pub creation_timestamp : Option DateTime
  pub deletion_timestamp : Option DateTime

pub record JobCondition : Type 0 where
  pub type : String
  pub status : String
  pub reason : Option String
  pub message : Option String

pub record JobStatus : Type 0 where
  pub conditions : Option (List JobCondition)
  pub active : Option ℤ
  pub succeeded : Option ℤ
  pub failed : Option ℤ
  pub start_time : Option DateTime
  pub completion_time : Option DateTime

pub record EnvVar : Type 0 where
  pub name : String
  pub value : Option String

pub record Container : Type 0 where
  pub name : String
  pub image : Option String
  pub env : Option (List EnvVar)

pub record PodSpec : Type 0 where
  pub restart_policy : Option String
  pub service_account_name : Option String
  pub containers : List Container

pub record PodTemplateSpec : Type 0 where
  pub labels : Option (BTreeMap String)
  pub spec : Option PodSpec

pub record JobSpec : Type 0 where
  pub active_deadline_seconds : Option ℤ
  pub ttl_seconds_after_finished : Option ℤ
  pub template : PodTemplateSpec
  pub backoff_limit : Option ℕ

pub record Job : Type 0 where
  pub metadata : ObjectMeta
  pub spec : Option JobSpec
  pub status : Option JobStatus

-- `binary_data` holds bytes.
pub record ConfigMap : Type 0 where
  pub metadata : ObjectMeta
  pub data_map : Option (BTreeMap String)
  pub binary_data : Option (BTreeMap (List ℕ))
