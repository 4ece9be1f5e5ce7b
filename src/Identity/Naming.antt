-- ===== src/Identity/Naming.antt =====
-- What the source hash depends on (crates/extension-package-core/src/identity.rs).
use kube_frontend_forge_cont.Common.{Option, none, some, ◌≡◌, arith}
use kube_frontend_forge_cont.Api.Kube.{ObjectMeta}
use kube_frontend_forge_cont.Api.Status.{FrontendExtensionStatus}
use kube_frontend_forge_cont.Api.Fields.{PublishPolicySpec}
use kube_frontend_forge_cont.Api.Extension.{FrontendExtension}
use kube_frontend_forge_cont.Outside.{Outside}
use kube_frontend_forge_cont.Identity.{
  frontend_extension_source_hash, frontend_extension_package_name, default_package_dependencies,
  package_dependencies,
}

module _ (out : Outside) (fe : FrontendExtension) where
  -- The same extension under other metadata, status and publish policy.
  abbrev pub with_surroundings :
      ObjectMeta → Option FrontendExtensionStatus → Option PublishPolicySpec → FrontendExtension
  with_surroundings meta status policy = record {
    metadata = meta;
    spec = record (fe.spec) { publish_policy = policy };
    status = status;
  }

  -- The same extension with its package name and its dependencies written out.
  abbrev pub with_defaults : FrontendExtension
  with_defaults =
      let name = frontend_extension_package_name out fe in
      record fe {
        spec = record (fe.spec) {
          package_spec = record (fe.spec.package_spec) {
            name = some name;
            dependencies = elim (fe.spec.package_spec.dependencies) [
              | none ↦ some (default_package_dependencies name)
              | some deps ↦ some deps
            ];
          };
        };
      }

  -- The hash reads neither annotations, labels, generation, status nor publish policy, as long as
  -- the object keeps its name.
  pub source_hash_of_surroundings :
      (meta : ObjectMeta) (status : Option FrontendExtensionStatus)
      (policy : Option PublishPolicySpec)
      → out.name_any meta ≡ out.name_any fe.metadata
      → frontend_extension_source_hash out (with_surroundings meta status policy)
        ≡ frontend_extension_source_hash out fe
  unfolding frontend_extension_source_hash frontend_extension_package_name
  source_hash_of_surroundings meta status policy e = ground arith

  -- Defaults that are left out and defaults that are written out have the same hash.
  pub source_hash-with_defaults :
      frontend_extension_source_hash out with_defaults ≡ frontend_extension_source_hash out fe
  unfolding frontend_extension_source_hash frontend_extension_package_name package_dependencies
  source_hash-with_defaults = ground arith
