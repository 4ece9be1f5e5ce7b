-- ===== src/Controller/Status/Freshness.antt =====
-- What the labels say of a status (crates/frontend-extension-controller/src/status.rs).
use kube_frontend_forge_cont.Common.{
  true, some, ◌≡◌, ◌↔◌, ◌≢◌, arith, ==_iff, is_some_of_iff, Option-cases, inl, inr,
}
use kube_frontend_forge_cont.Api.Status.{
  PublishPhase, PublishStatus, ExtensionArtifactStatus, FrontendExtensionStatus,
}
use kube_frontend_forge_cont.Keys.{
  fe_publish_fresh_true, fe_publish_fresh_false, fe_publish_status_published,
  fe_publish_status_not_published, fe_publish_status_publishing, fe_publish_status_failed,
}
use kube_frontend_forge_cont.Controller.Status.Labels.{
  publish_status_label_value, publish_fresh_label_value,
}

false-ne-true : fe_publish_fresh_false ≢ fe_publish_fresh_true
false-ne-true e = cc ((==_iff fe_publish_fresh_false fe_publish_fresh_true).1 e)

not_published-ne-published : fe_publish_status_not_published ≢ fe_publish_status_published
not_published-ne-published e =
    cc ((==_iff fe_publish_status_not_published fe_publish_status_published).1 e)

publishing-ne-published : fe_publish_status_publishing ≢ fe_publish_status_published
publishing-ne-published e =
    cc ((==_iff fe_publish_status_publishing fe_publish_status_published).1 e)

failed-ne-published : fe_publish_status_failed ≢ fe_publish_status_published
failed-ne-published e = cc ((==_iff fe_publish_status_failed fe_publish_status_published).1 e)

module _ (status : FrontendExtensionStatus) where
  -- A publish has succeeded and is active.
  abbrev pub IsPublished : PublishStatus → Type 0
  IsPublished publish =
      (status.publish ≡ some publish)
      × (publish.phase ≡ PublishPhase.succeeded)
      × (publish.active ≡ true)

  -- The label says "published" exactly when the publish has succeeded and is active.
  pub IsPublished-iff :
      (publish_status_label_value status.publish ≡ fe_publish_status_published)
      ↔ ((publish : PublishStatus) × IsPublished publish)
  unfolding publish_status_label_value
  IsPublished-iff = elim (Option-cases status.publish) [
    | inl e ↦ (
      λ h. absurd (
          ground
            (arith, e, not_published-ne-published, publishing-ne-published, failed-ne-published)),
      λ h.
          ground
            (arith, e, not_published-ne-published, publishing-ne-published, failed-ne-published),
    )
    | inr (publish, e) ↦ (
      λ h. (
        publish,
        (
          e,
          ground
              (arith, e, not_published-ne-published, publishing-ne-published, failed-ne-published),
          ground
              (arith, e, not_published-ne-published, publishing-ne-published, failed-ne-published),
        ),
      ),
      λ h.
          ground
            (arith, e, not_published-ne-published, publishing-ne-published, failed-ne-published),
    )
  ]

  -- The label says "fresh" exactly when there is an artifact and what is published is that artifact.
  pub fresh_iff : (publish_fresh_label_value status ≡ fe_publish_fresh_true) ↔ (
      (artifact : ExtensionArtifactStatus) × (publish : PublishStatus) × (status.artifact
        ≡ some artifact)
      × IsPublished publish
      × (publish.artifact_digest ≡ some artifact.digest))
  unfolding publish_fresh_label_value
  fresh_iff = elim (Option-cases status.artifact) [
    | inl e ↦
        (λ h. absurd (ground (arith, false-ne-true, e)), λ h. ground (arith, false-ne-true, e))
    | inr (artifact, e) ↦ elim (Option-cases status.publish) [
      | inl f ↦ (
        λ h. absurd (ground (arith, false-ne-true, e, f)),
        λ h. ground (arith, false-ne-true, e, f),
      )
      | inr (publish, f) ↦
          let digest = is_some_of_iff publish.artifact_digest artifact.digest in
          (
            λ h. (
              artifact,
              publish,
              e,
              (
                f,
                ground (arith, false-ne-true, e, f, digest),
                ground (arith, false-ne-true, e, f, digest),
              ),
              ground (arith, false-ne-true, e, f, digest),
            ),
            λ h. ground (arith, false-ne-true, e, f, digest),
          )
    ]
  ]
