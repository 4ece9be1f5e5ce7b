-- ===== src/Migration/Config.antt =====
-- The settings of the migrator
-- (crates/frontend-forge-controller/src/bin/fi_to_fe_migrator/config.rs, main.rs).
use kube_frontend_forge_cont.Common.{
  ℕ, String, Option, none, some, ◌==◌, chars, trim, if◌then◌else◌,
}
use kube_frontend_forge_cont.Api.Fields.{PublishTargetKind}
use kube_frontend_forge_cont.Api.Extension.{non_empty}
use kube_frontend_forge_cont.Decimal.{parse_u64}
use kube_frontend_forge_cont.Controller.Publish.{or_default}

-- `Error` of main.rs, without the failures of kube.
pub data MigratorError : Type 0 where
  invalid_env : String → String → String → MigratorError
  message : String → MigratorError

pub data Outcome (A : Type 0) : Type 0 where
  ok : A → Outcome A
  err : MigratorError → Outcome A

module _ {A B : Type 0} where
  infixl 1 ◌>>=◌
  unfoldable pub ◌>>=◌ : Outcome A → (A → Outcome B) → Outcome B
  ok a >>= f = f a
  err e >>= f = err e

pub record MigratorConfig : Type 0 where
  pub package_version : String
  pub schema_version : String
  pub ready_timeout : ℕ
  pub poll_interval : ℕ
  pub publish_target_kind : PublishTargetKind
  pub publish_target_namespace : String
  pub publish_target_name : String

unfoldable pub parse_publish_target_kind : String → Outcome PublishTargetKind
parse_publish_target_kind value =
    if value == "ConfigMap"
    then ok PublishTargetKind.config_map
    else if value == "Secret"
    then ok PublishTargetKind.secret
    else err (invalid_env "PUBLISH_TARGET_KIND" value "expected ConfigMap or Secret")

abbrev trimmed_value : Option String → Option String
trimmed_value none = none
trimmed_value (some value) = some (trim value)

-- `env` is `std::env::var(key).ok()`.
module _ (env : String → Option String) where
  unfoldable pub optional_env : String → Option String
  optional_env key = non_empty (trimmed_value (env key))

  unfoldable pub env_or : String → String → String
  env_or key default = or_default (optional_env key) default

  abbrev required : String → Option String → Outcome String
  required key none = err (invalid_env key "" "required environment variable is empty")
  required key (some value) = ok value

  unfoldable pub required_env : String → Outcome String
  required_env key = required key (optional_env key)

-- `number_error` is the text of the language's error for a text that is no u64.
module _ (env : String → Option String) (number_error : String → String) where
  abbrev parsed : String → String → Option ℕ → Outcome ℕ
  parsed key value none = err (invalid_env key value (number_error value))
  parsed key value (some n) = ok n

  abbrev number_or : String → ℕ → Option String → Outcome ℕ
  number_or key default none = ok default
  number_or key default (some value) = parsed key value (parse_u64 (chars value))

  unfoldable pub parse_env_u64 : String → ℕ → Outcome ℕ
  parse_env_u64 key default = number_or key default (optional_env env key)

  -- `MigratorConfig::from_env`.
  unfoldable pub from_env : Outcome MigratorConfig
  unfolding ◌>>=◌
  from_env = do
    publish_target_kind ← parse_publish_target_kind (env_or env "PUBLISH_TARGET_KIND" "ConfigMap")
    ready_timeout ← parse_env_u64 "READY_TIMEOUT_SECONDS" 600
    poll_interval ← parse_env_u64 "POLL_INTERVAL_SECONDS" 5
    publish_target_namespace ← required_env env "PUBLISH_TARGET_NAMESPACE"
    ok (record {
      package_version = env_or env "PACKAGE_VERSION" "0.1.0";
      schema_version = env_or env "SCHEMA_VERSION" "v1";
      ready_timeout = ready_timeout;
      poll_interval = poll_interval;
      publish_target_kind = publish_target_kind;
      publish_target_namespace = publish_target_namespace;
      publish_target_name = env_or env "PUBLISH_TARGET_NAME" "ksbuilder-publish-config";
    })
