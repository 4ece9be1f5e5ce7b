-- ===== src/Controller/Writes/Settled.antt =====
-- When the writing of a status writes nothing
-- (crates/frontend-extension-controller/src/status.rs: `patch_fe_status`).
use kube_frontend_forge_cont.Common.{
  String, Bool, true, false, some, [], ◌∷◌, Bool-cases, ◌≡◌, refl, ap, ◌∙◌, arith, Option-cases,
  inl, inr,
}
use kube_frontend_forge_cont.Api.Status.{FrontendExtensionStatus}
use kube_frontend_forge_cont.Api.Extension.{FrontendExtension}
use kube_frontend_forge_cont.Outside.{Outside}
use kube_frontend_forge_cont.Identity.{frontend_extension_source_hash}
use kube_frontend_forge_cont.Controller.Status.Labels.{
  fe_status_labels_need_patch, frontend_extension_status_labels_patch,
}
use kube_frontend_forge_cont.Controller.Status.Observe.{
  fe_status_observes_frontend_extension, fe_status_needs_patch,
}
use kube_frontend_forge_cont.Controller.Calls.{Call, Error, Answer, done, ◌>>=◌, need}
use kube_frontend_forge_cont.Controller.Calls.Run.{
  Server, Outcome, run, trace, run-request, trace-request, trace-request_alone,
}
use kube_frontend_forge_cont.Controller.Writes.{
  observes, labels_for, patch_latest, patch_fe_status, patch_fe_status_labels,
}
use kube_frontend_forge_cont.Controller.Writes.About.{
  HasHashes, IsAbout, IsLabelled, IsLabelled-settled, settled-IsLabelled, observes-cases,
}

observes-eq :
    (out : Outside) (latest : FrontendExtension) (status : FrontendExtensionStatus) (b : Bool)
    → fe_status_observes_frontend_extension out latest status ≡ some b
    → observes out latest status ≡ done b
unfolding ◌>>=◌ need fe_status_observes_frontend_extension
observes-eq out latest status b h =
    elim (Option-cases (frontend_extension_source_hash out latest)) [
      | inl e ↦ ground (arith, e)
      | inr (s, e) ↦ ground (arith, e)
    ]

needs_patch_self :
    (latest : FrontendExtension) (status : FrontendExtensionStatus)
    → latest.status ≡ some status
    → fe_status_needs_patch latest status ≡ false
unfolding fe_status_needs_patch
needs_patch_self latest status h = ground arith

labels_for-current :
    (out : Outside) (latest : FrontendExtension) (status : FrontendExtensionStatus)
    (fe_name : String)
    → fe_status_observes_frontend_extension out latest status ≡ some true
    → labels_for out fe_name latest (some status) ≡ patch_fe_status_labels out latest status fe_name
unfolding ◌>>=◌
labels_for-current out latest status fe_name g = rw (observes-eq out latest status true g) refl

module _ (out : Outside) (server : Server) (fe : FrontendExtension)
    (status : FrontendExtensionStatus) (latest : FrontendExtension) where
  -- Only the extension is read.
  abbrev pub ReadsOnly : Type 0
  ReadsOnly =
      (trace server (patch_fe_status out fe status)
        ≡ Call.get_extension (out.name_any fe.metadata) ∷ [])
      × (run server (patch_fe_status out fe status) ≡ Outcome.result tt)

  reads_only :
      server (Call.get_extension (out.name_any fe.metadata)) ≡ Answer.ok latest
      → patch_latest out (out.name_any fe.metadata) status latest ≡ done tt
      → ReadsOnly
  unfolding patch_fe_status trace run
  reads_only h g =
      let fe_name = out.name_any fe.metadata in
      let next = patch_latest out fe_name status in
      let c = Call.get_extension fe_name in
      let e = Error.get_frontend_extension fe_name in
      (
        trace-request server c e latest next h ∙ ap (λ p. c ∷ trace server p) g,
        run-request server c e latest next h ∙ ap (run server) g,
      )

  -- Where the hashes of the extension that the API server answers with can be computed: if a status is
  -- not about that extension (its generation, source hash, rebuild token and, where the status has an
  -- artifact, artifact key), then the extension is read once, nothing is written, and the writing
  -- succeeds.
  pub patch_fe_status-stale :
      (hash key : String)
      → server (Call.get_extension (out.name_any fe.metadata)) ≡ Answer.ok latest
      → HasHashes out latest hash key
      → ¬ IsAbout latest hash key status
      → ReadsOnly
  unfolding ◌>>=◌
  patch_fe_status-stale hash key h hashed n =
      elim (observes-cases out latest status hash key hashed) [
        | inl (g, about) ↦ absurd (n about)
        | inr (g, _) ↦ reads_only h (rw (observes-eq out latest status false g) refl)
      ]

  settled_latest :
      (hash key : String)
      → HasHashes out latest hash key
      → IsAbout latest hash key status
      → latest.status ≡ some status
      → patch_latest out (out.name_any fe.metadata) status latest
        ≡ patch_fe_status_labels out latest status (out.name_any fe.metadata)
  unfolding ◌>>=◌
  settled_latest hash key hashed about s = elim (observes-cases out latest status hash key hashed) [
    | inr (g, n) ↦ absurd (n about)
    | inl (g, _) ↦
        rw (observes-eq out latest status true g, needs_patch_self latest status s)
          (ap (labels_for out (out.name_any fe.metadata) latest) s
            ∙ labels_for-current out latest status (out.name_any fe.metadata) g)
  ]

  -- Where the hashes of the extension that the API server answers with can be computed: if the
  -- extension has the status already and the status is about it (its generation, source hash, rebuild
  -- token and, where the status has an artifact, artifact key), then where its labels are those of the
  -- status, with none of the deprecated ones, the extension is read once, nothing is written, and the
  -- writing succeeds; and where they are not, the extension is read once and the labels of the status
  -- are written, and no other call is made.
  pub patch_fe_status-settled :
      (hash key : String)
      → server (Call.get_extension (out.name_any fe.metadata)) ≡ Answer.ok latest
      → HasHashes out latest hash key
      → IsAbout latest hash key status
      → latest.status ≡ some status
      → (IsLabelled latest status → ReadsOnly)
        × (¬ IsLabelled latest status
            → trace server (patch_fe_status out fe status)
              ≡ Call.get_extension (out.name_any fe.metadata)
                ∷ Call.patch_labels
                    (out.name_any fe.metadata)
                    (frontend_extension_status_labels_patch status)
                ∷ [])
  unfolding patch_fe_status patch_fe_status_labels
  patch_fe_status-settled hash key h hashed about s =
      let fe_name = out.name_any fe.metadata in
      let c = Call.get_extension fe_name in
      let e = Error.get_frontend_extension fe_name in
      let same = settled_latest hash key hashed about s in
      elim (Bool-cases (fe_status_labels_need_patch latest status)) [
        | inr settled ↦ (
          λ labelled. reads_only h (same ∙ rw settled refl),
          λ n. absurd (n (settled-IsLabelled latest status settled)),
        )
        | inl needed ↦ (
          λ labelled. absurd (ground (arith, needed, IsLabelled-settled latest status labelled)),
          λ n.
              trace-request server c e latest (patch_latest out fe_name status) h
              ∙ ap (λ p. c ∷ trace server p) same
              ∙ rw needed (
                  ap (λ cs. c ∷ cs)
                    (trace-request_alone server
                      (Call.patch_labels fe_name (frontend_extension_status_labels_patch status))
                      (Error.patch_frontend_extension_status_labels fe_name))),
        )
      ]
