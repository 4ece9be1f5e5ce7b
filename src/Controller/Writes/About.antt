-- ===== src/Controller/Writes/About.antt =====
-- When a status is about an extension, and when its labels are there, as the source tests them
-- (crates/frontend-extension-controller/src/status.rs: `fe_status_observes_frontend_extension`,
-- `fe_status_labels_need_patch`).
use kube_frontend_forge_cont.Common.{
  String, true, false, Option, none, some, ◌⊎◌, is_some_of, is_some_of_iff, is_some_of_self,
  Bool-cases, ◌≡◌, arith, Option-cases, inl, inr,
}
use kube_frontend_forge_cont.Api.Status.{ExtensionArtifactStatus, FrontendExtensionStatus}
use kube_frontend_forge_cont.Api.Extension.{FrontendExtension}
use kube_frontend_forge_cont.Outside.{Outside}
use kube_frontend_forge_cont.Identity.{frontend_extension_source_hash, artifact_key}
use kube_frontend_forge_cont.Controller.Status.Labels.{
  fe_status_labels_need_patch, frontend_extension_status_labels, package_status_label_value,
  publish_status_label_value, publish_fresh_label_value,
}
use kube_frontend_forge_cont.Controller.Artifact.{get_opt}
use kube_frontend_forge_cont.Controller.Integers.{or_zero, same_generation, same_generation_iff}
use kube_frontend_forge_cont.Controller.Package.{frontend_extension_rebuild_token}
use kube_frontend_forge_cont.Keys.{
  label_fe_package_status, label_fe_publish_status, label_fe_publish_fresh,
  deprecated_label_fe_package_status, deprecated_label_fe_publish_status,
}
use kube_frontend_forge_cont.Controller.Status.Observe.{fe_status_observes_frontend_extension}

-- The hashes of an extension, where they can be computed.
abbrev pub HasHashes : Outside → FrontendExtension → String → String → Type 0
HasHashes out latest hash key =
    (frontend_extension_source_hash out latest ≡ some hash)
    × (artifact_key out hash (frontend_extension_rebuild_token latest) ≡ some key)

-- The artifact of a status, if it has one, is that of the key.
abbrev pub HasKey : Option ExtensionArtifactStatus → String → Type 0
HasKey none key = Unit
HasKey (some artifact) key = artifact.artifact_key ≡ some key

-- A status about the generation, the source hash, the rebuild token and the artifact key of an
-- extension.
abbrev pub IsAbout : FrontendExtension → String → String → FrontendExtensionStatus → Type 0
IsAbout latest hash key status =
    (status.observed_generation ≡ some (or_zero latest.metadata.generation))
    × (status.observed_source_hash ≡ some hash)
    × (status.observed_rebuild_token ≡ some (frontend_extension_rebuild_token latest))
    × HasKey status.artifact key

-- The labels of a status are there, and the deprecated ones are not.
abbrev pub IsLabelled : FrontendExtension → FrontendExtensionStatus → Type 0
IsLabelled latest status =
    let at = get_opt latest.metadata.labels in
    (at label_fe_package_status ≡ some (package_status_label_value status.phase))
    × (at label_fe_publish_status ≡ some (publish_status_label_value status.publish))
    × (at label_fe_publish_fresh ≡ some (publish_fresh_label_value status))
    × (at deprecated_label_fe_package_status ≡ none)
    × (at deprecated_label_fe_publish_status ≡ none)

pub IsLabelled-settled :
    (latest : FrontendExtension) (status : FrontendExtensionStatus)
    → IsLabelled latest status
    → fe_status_labels_need_patch latest status ≡ false
unfolding fe_status_labels_need_patch frontend_extension_status_labels
IsLabelled-settled latest status (p, q, f, dp, dq) =
    rw
      (
        p,
        q,
        f,
        is_some_of_self (package_status_label_value status.phase),
        is_some_of_self (publish_status_label_value status.publish),
        is_some_of_self (publish_fresh_label_value status),
      )
      (ground (arith, dp, dq))

pub settled-IsLabelled :
    (latest : FrontendExtension) (status : FrontendExtensionStatus)
    → fe_status_labels_need_patch latest status ≡ false
    → IsLabelled latest status
unfolding fe_status_labels_need_patch frontend_extension_status_labels
settled-IsLabelled latest status h =
    let at = get_opt latest.metadata.labels in
    let value = λ (key text : String). is_some_of_iff (at key) text in
    (
      ground (arith, h, value label_fe_package_status (package_status_label_value status.phase)),
      ground (arith, h, value label_fe_publish_status (publish_status_label_value status.publish)),
      ground (arith, h, value label_fe_publish_fresh (publish_fresh_label_value status)),
      elim (Option-cases (at deprecated_label_fe_package_status)) [
        | inl e ↦ e
        | inr (v, e) ↦ absurd (ground (arith, h, e))
      ],
      elim (Option-cases (at deprecated_label_fe_publish_status)) [
        | inl e ↦ e
        | inr (v, e) ↦ absurd (ground (arith, h, e))
      ],
    )

pub observes-cases :
    (out : Outside) (latest : FrontendExtension) (status : FrontendExtensionStatus)
    (hash key : String)
    → HasHashes out latest hash key
    → ((fe_status_observes_frontend_extension out latest status ≡ some true)
        × IsAbout latest hash key status)
      ⊎ ((fe_status_observes_frontend_extension out latest status ≡ some false)
          × ¬ IsAbout latest hash key status)
unfolding fe_status_observes_frontend_extension
observes-cases out latest status hash key (hashed, keyed) =
    let generation = or_zero latest.metadata.generation in
    let token = frontend_extension_rebuild_token latest in
    let g = same_generation_iff status.observed_generation (some generation) in
    let s = is_some_of_iff status.observed_source_hash hash in
    let t = is_some_of_iff status.observed_rebuild_token token in
    elim (Bool-cases (same_generation status.observed_generation (some generation))) [
      | inr e ↦ inr (ground (arith, hashed, e), λ about. ground (arith, g, e, about))
      | inl e ↦ elim (Bool-cases (is_some_of status.observed_source_hash hash)) [
        | inr f ↦ inr (ground (arith, hashed, e, f), λ about. ground (arith, s, f, about))
        | inl f ↦ elim (Bool-cases (is_some_of status.observed_rebuild_token token)) [
          | inr d ↦ inr (ground (arith, hashed, e, f, d), λ about. ground (arith, t, d, about))
          | inl d ↦ elim (Option-cases status.artifact) [
            | inl none_there ↦ inl (
              ground (arith, hashed, e, f, d, none_there),
              (g.0 e, s.0 f, t.0 d, rw none_there tt),
            )
            | inr (artifact, there) ↦ elim (Bool-cases (is_some_of artifact.artifact_key key)) [
              | inl k ↦ inl (
                ground (arith, hashed, e, f, d, there, keyed, k),
                (g.0 e, s.0 f, t.0 d, rw there ((is_some_of_iff artifact.artifact_key key).0 k)),
              )
              | inr k ↦ inr (
                ground (arith, hashed, e, f, d, there, keyed, k),
                λ (_, _, _, h).
                    let same : artifact.artifact_key ≡ some key = rw there at h in
                    ground (arith, is_some_of_iff artifact.artifact_key key, k, same),
              )
            ]
          ]
        ]
      ]
    ]
