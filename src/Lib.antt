-- ===== src/Lib.antt =====
-- A model of the controllers of Frontend Forge, of the manifests that they validate and render, and
-- of the shared code that they stand on, with theorems about them.
--
-- The program. A FrontendExtension (crates/api/src/fe.rs) describes a frontend package. The
-- controller (crates/frontend-extension-controller/src) hashes its source, creates package Jobs until
-- an artifact ConfigMap holds the package, writes the extension's status and labels, starts publish
-- and unpublish Jobs for the requests that annotations make, collects old artifact ConfigMaps, and
-- deletes an extension whose deletion was asked for after its unpublish. It validates the source
-- first by rendering its manifest (crates/manifest/src). A FrontendIntegration (crates/api/src/fi.rs)
-- is the older kind of resource: its controller (crates/frontend-forge-controller/src/fi) starts one
-- build Job for each hash of the spec, and keeps the JSBundle that the Job makes and the
-- integration's status in step with whether the integration is enabled.
--
-- The files:
--   Common      tests, lists, maps and texts that the others share
--   Api         the resource types of crates/api/src/fe.rs and (Integration) crates/api/src/fi.rs, and
--               the Kubernetes types beside them
--   Decimal     decimal print and the parsing of u32, u64 and i64 (to_string and parse of the language)
--   Names       the names of crates/common/src/lib.rs (bounded_name, hash_label_value, ..)
--   Keys        labels, annotations and values of crates/common/src/lib.rs
--   Jobs        observed_job_phase and extract_job_message of crates/common/src/lib.rs
--   Outside     the functions of other packages, as a record that definitions are given
--   Identity    source hashes of crates/extension-package-core/src/identity.rs
--   Manifest    crates/manifest/src, with validate_frontend_extension and the dispatch on versions:
--     Error      ManifestRenderError and results     Json    JSON values
--     Input      lib.rs: inputs of the renderer, and the menus of an extension
--     Checks, Resolve   v1/resolve.rs                Render  v1/render.rs
--     Columns    v1/columns.rs                       Pages   v1/pages.rs
--     Validated, Agreement   what validation accepts; the listing of pages beside the rendering
--   Controller  one child for each part of crates/frontend-extension-controller/src:
--     Package    package.rs    Artifact  artifact.rs    Publish  publish.rs
--     Unpublish  unpublish.rs  Status    status.rs (with Labels, Observe and Patch)
--     Config     config.rs     Times, Integers, JobShape  readings and shapes that they share
--     Calls      the calls of the Kubernetes API, and programs that make them
--     Sync       sync_publish, sync_unpublish, create_or_get_job, delete_frontend_extension
--     Writes     patch_fe_status, gc_artifact_configmaps and the other calls of status.rs,
--                artifact.rs and package.rs
--     Reconcile  controller.rs: reconcile and error_policy (Invalid: with the validation of Manifest)
--   Integrations  crates/frontend-forge-controller/src:
--     Config     ControllerConfig of lib.rs (IntegrationControllerConfig)
--     Build      fi/build.rs    Bundle  readings of a JSBundle (fi/jsbundle.rs, fi/status.rs)
--     Status     fi/status.rs   Reconcile  fi/controller.rs and the calls of the other files
--     Allowed    what a reconciliation may call      Bundles, Sound  that it calls nothing else
--     Settled    what a status that was written means for the next reconciliation
--   Requests    publish and unpublish requests of crates/frontend-forge-extension-api/src/publish.rs,
--               which reach the controller as annotations
--   Migration   crates/frontend-forge-controller/src/bin/fi_to_fe_migrator: config.rs (Config),
--               naming.rs (Naming), publish.rs (Publish), and the controller's reading of what the
--               migrator leaves (Handover)
--   Tests       the theorems at concrete inputs
--
-- State and calls. The controllers keep no state of their own: they read and write objects of the API
-- server. A program (Controller.Calls.Prog) is a tree of calls, each of which goes on with any reply,
-- so a theorem about its calls holds whatever other clients do in between, and every program ends.
-- Where what a call is for depends on an answer (the latest Job, the artifact, the stored status),
-- the property is given the relation `said` of the answers to each call, and ties the call to one of
-- them (Controller.Calls.Meets); the answers of a server are such a relation (Controller.Calls.Run).
-- `reconcile` is cut into the parts reconcile_source, after_validation, after_lookup,
-- reconcile_ready, reconcile_package, by_phase, after_success and start_attempt, in the order in
-- which controller.rs has them, and reconcile_integration likewise into with_bundle, build, disable
-- and sync_status_from_children with its cases; each helper stands next to the function that it is a part of.
-- Logging is left out. A source hash or artifact key that cannot be computed is `none`, which ends
-- the program with the error that the source has.
--
-- Numbers. An i64 is pos n or negsuc n, a u32 or u64 a natural number; the bounds 2 ^ 32, 2 ^ 63 and 2 ^ 64 are
-- written where the source meets them (parse, saturating_add, try_from). A time stamp is its place in
-- the order of times. A BTreeMap is an association list, which is looked up, inserted into and
-- removed from. Where the order of the keys shows (localized_text and the locales of a manifest) the
-- list is taken to be in the order of its keys. `Utc::now()` is the parameter `now` of a
-- reconciliation of an integration, which reads the clock at most once. The environment of the
-- migrator is a function from the names of variables to their values.
-- All recursion is structural, but for the digits of a number (Decimal.digits), whose fuel is set
-- above the number and never runs out.
--
-- JSON. A manifest is a value of Manifest.Json.Value, an object of it a list of keys and values. What
-- a user gives as JSON (charts, column payloads, conditions of a JSBundle) is kept as its text.
--
-- The extension API and the controller meet in the annotations of an extension only: the API writes
-- them by a merge patch, and the controller reads them at its next reconciliation.
--
-- Patches. A status patch is kept as a record of JSON fields, each left out, null or a value
-- (Controller.Status.Patch, Integrations.Status): the JSON keys are its field names, and building it
-- cannot fail. What the API server does with the patch of an extension's status is written out by
-- the rules of RFC 7386 (Controller.Status.Patch.Merge).
--
-- Not modelled: the ordering of concurrent reconciliations by kube's controller loop, and with it
-- `run`; the reading of the environment by the controllers; and the other crates: the admission webhook
-- (crates/frontend-forge-controller/src/webhook.rs), the run of the migration and the extensions that
-- it makes (migration.rs, crd.rs and frontend_extension.rs under src/bin/fi_to_fe_migrator), the
-- handlers of the extension API server, the packager, the publisher, the runner, the build service
-- client and the chart files, which are HTTP, processes and files for the most part. SHA-256,
-- serde_json, and the clock and name functions of kube, jiff and chrono are fields of Outside.
-- `reconcile` of an extension is given any validator, so that its theorems do not depend on one.
pub mod Common
pub mod Api
pub mod Decimal
pub mod Names
pub mod Keys
pub mod Jobs
pub mod Outside
pub mod Identity
pub mod Manifest
pub mod Controller
pub mod Integrations
pub mod Requests
pub mod Migration
pub mod Tests
