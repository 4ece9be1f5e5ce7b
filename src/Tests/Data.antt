-- ===== src/Tests/Data.antt =====
-- An extension, a configuration, an artifact and other packages' functions to run on.
use kube_frontend_forge_cont.Common.{zero, true, String, Option, none, some, [], ◌∷◌, BTreeMap, ap}
use kube_frontend_forge_cont.Api.Fields.{ℤ, pos}
use kube_frontend_forge_cont.Api.Kube.{ObjectMeta, JobStatus, Job, ConfigMap}
use kube_frontend_forge_cont.Api.Spec.{FrontendExtensionSourceType, FrontendExtensionSpec}
use kube_frontend_forge_cont.Api.Status.{
  PublishPhase, PublishStatus, UnpublishPhase, UnpublishStatus, FrontendExtensionStatus,
}
use kube_frontend_forge_cont.Api.Extension.{FrontendExtension}
use kube_frontend_forge_cont.Keys.{
  anno_source_hash, anno_artifact_key, anno_artifact_digest, anno_publish_request_id,
  anno_publish_request_generation, anno_publish_artifact_digest, anno_publish_target_name,
  anno_delete_after_unpublish_request_id, package_key, artifact_metadata_key,
}
use kube_frontend_forge_cont.Outside.{Outside, NamesByName}
use kube_frontend_forge_cont.Identity.Source.{PackageArtifactMetadata}
use kube_frontend_forge_cont.Controller.Calls.{Call, Answer, KubeError}
use kube_frontend_forge_cont.Controller.Calls.Run.{Server}
use kube_frontend_forge_cont.Controller.Config.{ControllerConfig}
use kube_frontend_forge_cont.Controller.Times.{or_empty}

abbrev pub metadata : PackageArtifactMetadata
metadata = record {
  name = "demo";
  version = "0.1.0";
  filename = "demo-0.1.0.tgz";
  media_type = "application/gzip";
  digest = "sha256:ab";
  size_bytes = 3;
  source_hash = "sha256:ab";
  generated_at = 7;
}

-- Every digest is "ab".
abbrev pub packages : Outside
packages = record {
  sha256_hex = λ bytes. "ab";
  as_bytes = λ s. [];
  source_json = λ s. some "source";
  key_json = λ k. some "key";
  spec_json = λ s. some "spec";
  metadata_from_str = λ s. some metadata;
  name_any = λ (m : ObjectMeta). or_empty m.name;
  controller_owner_ref = λ fe. none;
  integration_owner_ref = λ fi. none;
  as_second = λ t. pos t;
  subsec_nanosecond = λ t. pos zero;
  from_timestamp = λ second nanos. elim second [ ℤ.pos n ↦ some n | ℤ.negsuc n ↦ none ];
}

pub packages-NamesByName : NamesByName packages
packages-NamesByName m name e = ap or_empty e

abbrev pub named : String → BTreeMap String → ObjectMeta
named name annotations = record {
  name = some name;
  namespace = some "extension-frontend-forge";
  uid = some "u1";
  generation = some (pos 2);
  labels = none;
  annotations = some annotations;
  owner_references = none;
  creation_timestamp = some 5;
  deletion_timestamp = none;
}

abbrev pub spec : FrontendExtensionSpec
spec = record {
  package_spec = record {
    name = some "demo";
    version = "0.1.0";
    display_name = [];
    description = [];
    category = none;
    keywords = [];
    sources = [];
    kube_version = none;
    ks_version = none;
    maintainers = [];
    home = none;
    provider = [];
    icon = none;
    static_file_directory = none;
    dependencies = none;
    installation_mode = none;
    images = [];
    charts = none;
  };
  source = record {
    type = FrontendExtensionSourceType.inline;
    inline = record {
      schema_version = "v1";
      frontend = record { display_name = none; locales = []; menus = []; pages = [] };
      extension_resources = none;
    };
  };
  publish_policy = none;
}

abbrev pub requests : BTreeMap String
requests =
    (anno_publish_request_id, "r1")
    ∷ (anno_publish_request_generation, "2")
    ∷ (anno_publish_artifact_digest, "sha256:ab")
    ∷ (anno_publish_target_name, "target")
    ∷ (anno_delete_after_unpublish_request_id, "r2")
    ∷ []

abbrev pub extension_with : Option FrontendExtensionStatus → FrontendExtension
extension_with status = record { metadata = named "demo" requests; spec = spec; status = status }

abbrev pub extension : FrontendExtension
extension = extension_with none

abbrev pub configmap : ConfigMap
configmap = record {
  metadata = named "fe-demo" (
      (anno_source_hash, "sha256:ab")
      ∷ (anno_artifact_key, "sha256:ab")
      ∷ (anno_artifact_digest, "sha256:ab")
      ∷ []);
  data_map = some ((artifact_metadata_key, "artifact") ∷ []);
  binary_data = some ((package_key, 1 ∷ 2 ∷ 3 ∷ []) ∷ []);
}

abbrev pub configuration : ControllerConfig
configuration = record {
  work_namespace = "extension-frontend-forge";
  packager_image = "packager";
  packager_service_account = none;
  publisher_image = "publisher";
  publisher_service_account = none;
  artifact_configmap_namespace = "extension-frontend-forge";
  build_service_base_url = "http://build";
  build_service_timeout_seconds = 600;
  jsbundle_config_key = "index.js";
  reconcile_requeue_seconds = 10;
  job_active_deadline_seconds = pos 3600;
  job_ttl_seconds_after_finished = some (pos 3600);
  artifact_retain_old_count = 1;
  package_max_attempts = 3;
}

abbrev pub counted : Option ℤ → Option ℤ → JobStatus
counted succeeded failed = record {
  conditions = none;
  active = none;
  succeeded = succeeded;
  failed = failed;
  start_time = some 3;
  completion_time = some 4;
}

abbrev pub job_named : String → Option JobStatus → Job
job_named name status = record { metadata = named name []; spec = none; status = status }

abbrev pub published : PublishStatus
published = record {
  phase = PublishPhase.succeeded;
  active = true;
  request_id = some "r1";
  artifact_digest = some "sha256:ab";
  job_ref = none;
  started_at = some 3;
  finished_at = some 4;
  last_error = none;
}

abbrev pub unpublished : UnpublishStatus
unpublished = record {
  phase = UnpublishPhase.succeeded;
  request_id = some "r2";
  extension_name = some "demo";
  job_ref = none;
  started_at = some 5;
  finished_at = some 6;
  last_error = none;
}

-- An API server that has one extension and an artifact ConfigMap among those that it lists, no Job,
-- and creates what it is asked to.
abbrev pub server_of : FrontendExtension → Server
server_of fe (Call.get_extension name) = Answer.ok fe
server_of fe (Call.list_jobs selector) = Answer.ok []
server_of fe (Call.get_job_opt name) = Answer.ok none
server_of fe (Call.create_job job) = Answer.ok job
server_of fe (Call.get_configmap_opt name) = Answer.ok none
server_of fe (Call.list_configmaps selector) = Answer.ok (configmap ∷ [])
server_of fe (Call.get_bundle_opt name) = Answer.ok none
server_of fe _ = Answer.err (KubeError.api 404)
