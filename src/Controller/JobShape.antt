-- ===== src/Controller/JobShape.antt =====
-- The shape that the controller's three kinds of Job share (crates/frontend-extension-controller/src:
-- `make_package_job`, `make_publish_job`, `make_unpublish_job`).
use kube_frontend_forge_cont.Common.{
  zero, String, Option, none, some, List, [], ◌∷◌, BTreeMap, collect, insert,
}
use kube_frontend_forge_cont.Api.Fields.{ℤ}
use kube_frontend_forge_cont.Api.Kube.{EnvVar, OwnerReference, Job}
use kube_frontend_forge_cont.Decimal.{decimal_signed}
use kube_frontend_forge_cont.Keys.{anno_fe_observed_generation}

-- `EnvVar { name, value: Some(value), ..Default::default() }`
abbrev pub env_var : String → String → EnvVar
env_var name value = record { name = name; value = some value }

-- `base_owner_ref(fe).map(|o| vec![o])`
abbrev pub owners : Option OwnerReference → Option (List OwnerReference)
owners none = none
owners (some o) = some (o ∷ [])

-- The generation is noted where there is one.
abbrev pub note_generation : Option ℤ → BTreeMap String → BTreeMap String
note_generation none annotations = annotations
note_generation (some generation) annotations =
    insert anno_fe_observed_generation (collect (decimal_signed generation)) annotations

-- What the kinds of Job share, with the namespace, the deadline and the time to live: one container, run once, under the given labels.
abbrev pub one_container_job :
    String
    → ℤ
    → Option ℤ
    → String
    → BTreeMap String
    → BTreeMap String
    → Option OwnerReference
    → String
    → String
    → String
    → Option String
    → List EnvVar
    → Job
one_container_job namespace deadline ttl job_name labels annotations owner app container image
      account env =
    record {
      metadata = record {
        name = some job_name;
        namespace = some namespace;
        uid = none;
        generation = none;
        labels = some labels;
        annotations = some annotations;
        owner_references = owners owner;
        creation_timestamp = none;
        deletion_timestamp = none;
      };
      spec = some (record {
        active_deadline_seconds = some deadline;
        ttl_seconds_after_finished = ttl;
        template = record {
          labels = some (("app.kubernetes.io/name", app) ∷ []);
          spec = some (record {
            restart_policy = some "Never";
            service_account_name = account;
            containers = record { name = container; image = some image; env = some env } ∷ [];
          });
        };
        backoff_limit = some zero;
      });
      status = none;
    }
