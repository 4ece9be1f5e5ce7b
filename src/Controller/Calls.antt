-- ===== src/Controller/Calls.antt =====
-- The calls that the controllers make of the Kubernetes API, and programs that make them
-- (crates/frontend-extension-controller/src; the errors are those of error.rs, and `JobError` of
-- crates/common/src/lib.rs). A program is a tree: after a call it goes on with any reply, so it
-- reaches an end after finitely many calls whatever the replies are.
pub mod Meets
pub mod Run
use kube_frontend_forge_cont.Common.{ℕ, String, Option, none, some, List, BTreeMap}
use kube_frontend_forge_cont.Api.Kube.{OwnerReference, Job, ConfigMap}
use kube_frontend_forge_cont.Api.Extension.{FrontendExtension}
use kube_frontend_forge_cont.Api.Integration.{FrontendIntegration, JsBundle}
use kube_frontend_forge_cont.Controller.Status.Patch.{StatusPatch}
use kube_frontend_forge_cont.Integrations.Status.{IntegrationStatusPatch}

-- `kube::Error`: an answer of the API server with its code, or another failure.
pub data KubeError : Type 0 where
  api : ℕ → KubeError
  other : KubeError

pub data JobError : Type 0 where
  create : String → String → KubeError → JobError
  get_after_conflict : String → String → KubeError → JobError

pub data Error : Type 0 where
  kube_client_init : KubeError → Error
  serialize_frontend_extension_status_patch : String → Error
  invalid_frontend_extension_status_patch_shape : String → Error
  frontend_extension_source_hash : Error
  frontend_extension_artifact_key : Error
  patch_frontend_extension_status : String → KubeError → Error
  get_frontend_extension : String → KubeError → Error
  patch_frontend_extension_status_labels : String → KubeError → Error
  list_package_jobs_for_artifact_key : String → String → String → KubeError → Error
  get_artifact_config_map : String → String → KubeError → Error
  list_artifact_config_maps_for_gc : String → KubeError → Error
  delete_artifact_config_map : String → String → KubeError → Error
  job : JobError → Error
  get_publish_job : String → String → KubeError → Error
  get_unpublish_job : String → String → KubeError → Error
  delete_frontend_extension : String → KubeError → Error
  -- of the FrontendIntegration controller (crates/frontend-forge-controller/src/lib.rs)
  common : Error
  get_frontend_integration : String → KubeError → Error
  patch_frontend_integration_metadata : String → KubeError → Error
  patch_frontend_integration_status : String → KubeError → Error
  list_jobs_for_hash : String → String → String → KubeError → Error
  get_js_bundle : String → KubeError → Error
  patch_js_bundle : String → KubeError → Error

-- The calls, with what they send; a patch is a JSON merge patch.
pub data Call : Type 0 where
  get_extension : String → Call
  patch_status : String → StatusPatch → Call
  patch_labels : String → BTreeMap (Option String) → Call
  delete_extension : String → Call
  list_jobs : String → Call
  get_job : String → Call
  get_job_opt : String → Call
  create_job : Job → Call
  get_configmap_opt : String → Call
  list_configmaps : String → Call
  delete_configmap : String → Call
  get_integration : String → Call
  patch_integration_status : String → IntegrationStatusPatch → Call
  patch_integration_labels : String → BTreeMap String → Call
  get_bundle_opt : String → Call
  patch_bundle_owners : String → List OwnerReference → Call
  patch_bundle_labels : String → BTreeMap String → Call
  -- the state of a bundle, by the status subresource and by the object
  patch_bundle_status : String → String → Call
  patch_bundle : String → String → Call

-- What a call returns when it succeeds.
abbrev pub Reply : Call → Type 0
Reply (Call.get_extension name) = FrontendExtension
Reply (Call.patch_status name status) = Unit
Reply (Call.patch_labels name labels) = Unit
Reply (Call.delete_extension name) = Unit
Reply (Call.list_jobs selector) = List Job
Reply (Call.get_job name) = Job
Reply (Call.get_job_opt name) = Option Job
Reply (Call.create_job desired) = Job
Reply (Call.get_configmap_opt name) = Option ConfigMap
Reply (Call.list_configmaps selector) = List ConfigMap
Reply (Call.delete_configmap name) = Unit
Reply (Call.get_integration name) = FrontendIntegration
Reply (Call.patch_integration_status name status) = Unit
Reply (Call.patch_integration_labels name labels) = Unit
Reply (Call.get_bundle_opt name) = Option JsBundle
Reply (Call.patch_bundle_owners name owners) = Unit
Reply (Call.patch_bundle_labels name labels) = Unit
Reply (Call.patch_bundle_status name state) = Unit
Reply (Call.patch_bundle name state) = Unit

pub data Answer (A : Type 0) : Type 0 where
  ok : A → Answer A
  err : KubeError → Answer A

pub data Prog (A : Type 0) : Type 0 where
  done : A → Prog A
  fail : Error → Prog A
  call : (c : Call) → (Answer (Reply c) → Prog A) → Prog A

infixl 5 ◌>>=◌ ◌>>◌
unfoldable pub ◌>>=◌ : {A B : Type 0} → Prog A → (A → Prog B) → Prog B
done a >>= f = f a
fail e >>= f = fail e
call c k >>= f = call c (λ r. k r >>= f)

unfoldable pub ◌>>◌ : {A B : Type 0} → Prog A → Prog B → Prog B
m >> k = m >>= λ _. k

-- `.await.with_context(..)?`
unfoldable pub or_fail : {A : Type 0} → (KubeError → Error) → Answer A → Prog A
or_fail e (ok a) = done a
or_fail e (err x) = fail (e x)

unfoldable pub request : (c : Call) → (KubeError → Error) → Prog (Reply c)
request c e = call c (λ r. or_fail e r)

-- A hash that has to be there.
unfoldable pub need : {A : Type 0} → Option A → Error → Prog A
need none e = fail e
need (some a) e = done a
