-- ===== src/Controller/Unpublish/Deactivate.antt =====
-- What a finished unpublish does to the status (crates/frontend-extension-controller/src/unpublish.rs).
use kube_frontend_forge_cont.Common.{
  ◌≤◌, true, false, String, Option, none, some, ◌≡◌, ◌≢◌, ◌↔◌, arith, ==_iff, inl, inr,
  is_some_of_iff, Option-cases, Bool-cases,
}
use kube_frontend_forge_cont.Api.Fields.{DateTime}
use kube_frontend_forge_cont.Api.Status.{
  PublishStatus, UnpublishPhase, UnpublishStatus, FrontendExtensionStatus,
}
use kube_frontend_forge_cont.Api.Extension.{FrontendExtension, annotation, non_empty}
use kube_frontend_forge_cont.Keys.{anno_delete_after_unpublish_request_id}
use kube_frontend_forge_cont.Controller.Unpublish.{
  UnpublishSync, apply_unpublish_sync, unpublish_succeeded_after_publish, or_time,
  should_delete_after_unpublish,
}

-- Both are known to have happened, the unpublish no earlier than the publish.
abbrev pub IsAfter : PublishStatus → UnpublishStatus → Type 0
IsAfter publish unpublish =
    (p : DateTime) × (u : DateTime) × (or_time publish.finished_at publish.started_at ≡ some p)
    × (or_time unpublish.finished_at unpublish.started_at ≡ some u)
    × (p ≤ u)

unpublish_succeeded_after_publish_iff :
    (publish : PublishStatus) (unpublish : UnpublishStatus)
    → (unpublish_succeeded_after_publish publish unpublish ≡ true) ↔ IsAfter publish unpublish
unfolding unpublish_succeeded_after_publish
unpublish_succeeded_after_publish_iff publish unpublish = (λ h. ground arith, λ h. ground arith)

-- An unpublish leaves a publish that was active in the status inactive exactly when it has succeeded
-- and is known not to have been earlier than the publish, and nothing else of the publish changes. The
-- publish stays as it was exactly when that is not so.
pub apply_unpublish_sync-inactive_iff :
    (status : FrontendExtensionStatus) (sync : UnpublishSync) (publish : PublishStatus)
    (unpublish : UnpublishStatus)
    → status.publish ≡ some publish
    → sync.status ≡ some unpublish
    → publish.active ≡ true
    → (((apply_unpublish_sync status sync).publish ≡ some (record publish { active = false }))
        ↔ ((unpublish.phase ≡ UnpublishPhase.succeeded) × IsAfter publish unpublish))
      × (((apply_unpublish_sync status sync).publish ≡ some publish)
          ↔ (¬ ((unpublish.phase ≡ UnpublishPhase.succeeded) × IsAfter publish unpublish)))
unfolding apply_unpublish_sync
apply_unpublish_sync-inactive_iff status sync publish unpublish hp hu ha = (
  (
    λ h. ground (arith, unpublish_succeeded_after_publish_iff publish unpublish),
    λ h. ground (arith, unpublish_succeeded_after_publish_iff publish unpublish),
  ),
  (
    λ h both. ground (arith, unpublish_succeeded_after_publish_iff publish unpublish, both),
    λ h. elim (Bool-cases (unpublish_succeeded_after_publish publish unpublish)) [
      | inr e ↦ ground (arith, e)
      | inl e ↦ ground (arith, e, unpublish_succeeded_after_publish_iff publish unpublish)
    ],
  ),
)

non_empty-eq-some :
    (o : Option String) (s : String) → (non_empty o ≡ some s) ↔ ((o ≡ some s) × (s ≢ ""))
unfolding non_empty
non_empty-eq-some none s = (λ h. ground arith, λ h. ground arith)
non_empty-eq-some (some t) s = (λ h. ground (arith, ==_iff t ""), λ h. ground (arith, ==_iff t ""))

-- An extension is deleted after an unpublish exactly when a non-empty annotation asks for the deletion
-- after a request and the unpublish of that request has succeeded.
pub should_delete_after_unpublish_iff :
    (fe : FrontendExtension) (sync : UnpublishSync)
    → (should_delete_after_unpublish fe sync ≡ true) ↔ (
        (id : String) × (status : UnpublishStatus) × (annotation fe.metadata
            anno_delete_after_unpublish_request_id
          ≡ some id)
        × (id ≢ "")
        × (sync.status ≡ some status)
        × (status.phase ≡ UnpublishPhase.succeeded)
        × (status.request_id ≡ some id))
unfolding should_delete_after_unpublish
should_delete_after_unpublish_iff fe sync =
    let asked = annotation fe.metadata anno_delete_after_unpublish_request_id in
    elim (Option-cases (non_empty asked)) [
      | inl e ↦ (
        λ h. absurd (ground (arith, e)),
        λ (id, status, named, ne, su, ph, rq). ground (arith, e, non_empty-eq-some asked id),
      )
      | inr (id, e) ↦ elim (Option-cases sync.status) [
        | inl f ↦ (
          λ h. absurd (ground (arith, e, f)),
          λ (id', status', at, ne, su, ph, rq). ground (arith, e, f),
        )
        | inr (status, f) ↦
            let same = is_some_of_iff status.request_id id in
            let named = non_empty-eq-some asked id in
            (
              λ h. (
                id,
                status,
                ground (arith, e, named),
                ground (arith, e, named),
                f,
                ground (arith, e, f, same),
                ground (arith, e, f, same),
              ),
              λ (id', status', at, ne, su, ph, rq).
                  ground (arith, e, f, same, non_empty-eq-some asked id'),
            )
      ]
    ]
