-- ===== src/Keys.antt =====
-- The labels, annotations and values that the programs agree on (crates/common/src/lib.rs,
-- crates/extension-package-core/src/types.rs).
use kube_frontend_forge_cont.Common.{String}

abbrev pub managed_by_value : String
managed_by_value = "frontend-forge-builder-controller"

abbrev pub label_fe_managed_by : String
label_fe_managed_by = "frontend-forge.kubesphere.io/managed-by"

abbrev pub label_fe_name : String
label_fe_name = "frontend-forge.kubesphere.io/fe-name"

abbrev pub label_fe_uid : String
label_fe_uid = "frontend-forge.kubesphere.io/fe-uid"

abbrev pub label_source_hash_short : String
label_source_hash_short = "frontend-forge.kubesphere.io/source-hash-short"

abbrev pub label_artifact_key_short : String
label_artifact_key_short = "frontend-forge.kubesphere.io/artifact-key-short"

abbrev pub label_fe_build_kind : String
label_fe_build_kind = "frontend-forge.kubesphere.io/build-kind"

abbrev pub label_package_kind : String
label_package_kind = "frontend-forge.kubesphere.io/package-kind"

abbrev pub label_publish_kind : String
label_publish_kind = "frontend-forge.kubesphere.io/publish-kind"

abbrev pub label_unpublish_kind : String
label_unpublish_kind = "frontend-forge.kubesphere.io/unpublish-kind"

abbrev pub label_publish_request_hash : String
label_publish_request_hash = "frontend-forge.kubesphere.io/publish-request-hash"

abbrev pub label_unpublish_request_hash : String
label_unpublish_request_hash = "frontend-forge.kubesphere.io/unpublish-request-hash"

abbrev pub label_fe_package_status : String
label_fe_package_status = "frontend-forge.kubesphere.io/package-state"

abbrev pub label_fe_publish_status : String
label_fe_publish_status = "frontend-forge.kubesphere.io/publish-state"

abbrev pub label_fe_publish_fresh : String
label_fe_publish_fresh = "frontend-forge.kubesphere.io/publish-fresh"

abbrev pub deprecated_label_fe_package_status : String
deprecated_label_fe_package_status = "Package"

abbrev pub deprecated_label_fe_publish_status : String
deprecated_label_fe_publish_status = "Publish"

abbrev pub anno_fe_observed_generation : String
anno_fe_observed_generation = "frontend-forge.kubesphere.io/observed-generation"

abbrev pub anno_rebuild_token : String
anno_rebuild_token = "frontend-forge.kubesphere.io/rebuild-token"

abbrev pub anno_source_hash : String
anno_source_hash = "frontend-forge.kubesphere.io/source-hash"

abbrev pub anno_artifact_key : String
anno_artifact_key = "frontend-forge.kubesphere.io/artifact-key"

abbrev pub anno_artifact_digest : String
anno_artifact_digest = "frontend-forge.kubesphere.io/artifact-digest"

abbrev pub anno_publish_request_id : String
anno_publish_request_id = "frontend-forge.kubesphere.io/publish-request-id"

abbrev pub anno_publish_request_generation : String
anno_publish_request_generation = "frontend-forge.kubesphere.io/publish-request-generation"

abbrev pub anno_publish_request_source_hash : String
anno_publish_request_source_hash = "frontend-forge.kubesphere.io/publish-request-source-hash"

abbrev pub anno_publish_artifact_digest : String
anno_publish_artifact_digest = "frontend-forge.kubesphere.io/publish-artifact-digest"

abbrev pub anno_publish_target_kind : String
anno_publish_target_kind = "frontend-forge.kubesphere.io/publish-target-kind"

abbrev pub anno_publish_target_namespace : String
anno_publish_target_namespace = "frontend-forge.kubesphere.io/publish-target-namespace"

abbrev pub anno_publish_target_name : String
anno_publish_target_name = "frontend-forge.kubesphere.io/publish-target-name"

abbrev pub anno_unpublish_request_id : String
anno_unpublish_request_id = "frontend-forge.kubesphere.io/unpublish-request-id"

abbrev pub anno_unpublish_extension_name : String
anno_unpublish_extension_name = "frontend-forge.kubesphere.io/unpublish-extension-name"

abbrev pub anno_delete_after_unpublish_request_id : String
anno_delete_after_unpublish_request_id =
    "frontend-forge.kubesphere.io/delete-after-unpublish-request-id"

abbrev pub package_kind_value : String
package_kind_value = "frontend-extension-package"

abbrev pub publish_kind_value : String
publish_kind_value = "frontend-extension-publish"

abbrev pub unpublish_kind_value : String
unpublish_kind_value = "frontend-extension-unpublish"

abbrev pub package_key : String
package_key = "package.tgz"

abbrev pub artifact_metadata_key : String
artifact_metadata_key = "artifact.json"

abbrev pub fe_package_status_packaging : String
fe_package_status_packaging = "packaging"

abbrev pub fe_package_status_ready : String
fe_package_status_ready = "ready"

abbrev pub fe_package_status_failed : String
fe_package_status_failed = "failed"

abbrev pub fe_publish_status_not_published : String
fe_publish_status_not_published = "not-published"

abbrev pub fe_publish_status_publishing : String
fe_publish_status_publishing = "publishing"

abbrev pub fe_publish_status_published : String
fe_publish_status_published = "published"

abbrev pub fe_publish_status_failed : String
fe_publish_status_failed = "failed"

abbrev pub fe_publish_fresh_true : String
fe_publish_fresh_true = "true"

abbrev pub fe_publish_fresh_false : String
fe_publish_fresh_false = "false"

abbrev pub label_managed_by : String
label_managed_by = "frontend-forge.io/managed-by"

abbrev pub label_fi_name : String
label_fi_name = "frontend-forge.io/fi-name"

abbrev pub label_enabled : String
label_enabled = "frontend-forge.io/enabled"

abbrev pub label_spec_hash : String
label_spec_hash = "frontend-forge.io/spec-hash"

abbrev pub label_manifest_hash : String
label_manifest_hash = "frontend-forge.io/manifest-hash"

abbrev pub label_build_kind : String
label_build_kind = "frontend-forge.io/build-kind"

abbrev pub anno_manifest_hash : String
anno_manifest_hash = "frontend-forge.io/manifest-hash"

abbrev pub build_kind_value : String
build_kind_value = "frontend-forge"

abbrev pub anno_observed_generation : String
anno_observed_generation = "frontend-forge.io/observed-generation"
