-- ===== src/Identity.antt =====
-- What identifies the source of an extension, and the hashes over it
-- (crates/extension-package-core/src/identity.rs, charts.rs; crates/common/src/lib.rs).
-- A hash that cannot be computed, as serialization fails, is `none`.
pub mod Source
pub mod Naming
use kube_frontend_forge_cont.Common.{String, Option, none, some, List, [], ◌∷◌, ◌&◌}
use kube_frontend_forge_cont.Api.Spec.{ExtensionDependencySpec}
use kube_frontend_forge_cont.Api.Extension.{FrontendExtension}
use kube_frontend_forge_cont.Outside.{Outside}
use Source.{
  NormalizedPackageIdentity, NormalizedSourceIdentity, NormalizedInlineSourceIdentity,
  SourceIdentity, ArtifactKeyInput,
}

helper_chart_name : String → String
helper_chart_name package_name = package_name & "-helper"

pub default_package_dependencies : String → List ExtensionDependencySpec
unfolding helper_chart_name
default_package_dependencies package_name =
    record { name = helper_chart_name package_name; tags = "agent" ∷ [] }
    ∷ record { name = "frontend"; tags = "extension" ∷ [] }
    ∷ []

pub package_dependencies :
    String → Option (List ExtensionDependencySpec) → List ExtensionDependencySpec
unfolding default_package_dependencies
package_dependencies package_name none = default_package_dependencies package_name
package_dependencies package_name (some dependencies) = dependencies

module _ (out : Outside) where
  -- `sha256_hex` of a text's bytes.
  abbrev pub text_sha256 : String → String
  text_sha256 s = out.sha256_hex (out.as_bytes s)

  -- `serializable_hash`, of the value's canonical JSON.
  abbrev pub hash_of : Option String → Option String
  hash_of none = none
  hash_of (some content) = some ("sha256:" & text_sha256 content)

  unfoldable pub artifact_key : String → String → Option String
  artifact_key source_hash rebuild_token = hash_of (
      out.key_json
        (record { key_version = "v1"; source_hash = source_hash; rebuild_token = rebuild_token }))

  unfoldable pub frontend_extension_package_name : FrontendExtension → String
  frontend_extension_package_name fe = elim (fe.spec.package_spec.name) [
    | none ↦ out.name_any fe.metadata
    | some name ↦ name
  ]

  -- The identity: what the package, the source and nothing else say.
  source_identity : FrontendExtension → SourceIdentity
  unfolding frontend_extension_package_name package_dependencies
  source_identity fe =
      let pkg = fe.spec.package_spec in
      let package_name = frontend_extension_package_name fe in
      record {
        package_identity = record {
          name = package_name;
          version = pkg.version;
          display_name = pkg.display_name;
          description = pkg.description;
          category = pkg.category;
          keywords = pkg.keywords;
          sources = pkg.sources;
          kube_version = pkg.kube_version;
          ks_version = pkg.ks_version;
          maintainers = pkg.maintainers;
          home = pkg.home;
          provider = pkg.provider;
          icon = pkg.icon;
          static_file_directory = pkg.static_file_directory;
          dependencies = package_dependencies package_name pkg.dependencies;
          installation_mode = pkg.installation_mode;
          images = pkg.images;
          charts = pkg.charts;
        };
        source = record {
          type = fe.spec.source.type;
          inline = record {
            schema_version = fe.spec.source.inline.schema_version;
            frontend = fe.spec.source.inline.frontend;
          };
        };
      }

  unfoldable pub frontend_extension_source_hash : FrontendExtension → Option String
  unfolding source_identity
  frontend_extension_source_hash fe = hash_of (out.source_json (source_identity fe))
