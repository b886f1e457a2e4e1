-- ===== src/Controller/Unpublish/Calls.antt =====
-- When `ControllerUnpublishVolume` calls DetachVolume, and what its success rests on.
use civo_csi.Base.{
  String, ◌≡◌, ◌≢◌, ==-refl, List, [], ◌∷◌, inl, inr, arith, ◌==◌, Bool, true, false, not, ◌&&◌,
  ◌||◌, if◌then◌else◌,
}
use civo_csi.Action.{ok, reply, failed, Reply-cases}
use civo_csi.Api.{Volume, Clienter, Logged, writes, Event, detached, got}
use civo_csi.Host.{Host, recorded_host}
use civo_csi.Driver.{Driver, watched}
use civo_csi.Csi.{UnpublishRequest}
use civo_csi.Controller.Statuses.{statuses}
use civo_csi.Controller.Unpublish.{
  says_volume_gone, confirm_available, detach_found, controller_unpublish_volume,
}

-- The volume is to be detached: it is on the node, and neither free nor on its way to be.
abbrev pub calls_detach : String → Volume → Bool
calls_detach node v =
    v.instance_id == node && (not (v.status == "available") && not (v.status == "detaching"))

-- The newest event is a read of the volume after which nothing is left to detach: it is free, it is
-- elsewhere, or it is gone.
abbrev pub sees_detached : UnpublishRequest → List Event → Bool
sees_detached req (got id (reply v) ∷ _) =
    id == req.volume_id && (v.status == "available" || not (v.instance_id == req.node_id))
sees_detached req (got id (failed e) ∷ _) = id == req.volume_id && says_volume_gone e
sees_detached req _ = false

module _ {W : Type 0} (host : Host W) (c : Clienter W) (d : Driver (Logged W)) where
  writes-confirm :
      (req : UnpublishRequest) (w : Logged W)
      → writes (confirm_available (watched c d) req w).1.1 ≡ writes w.1
  unfolding confirm_available
  writes-confirm req w = elim (Reply-cases (c.get_volume req.volume_id w.0).0) [
    | inl (v, e) ↦ ground arith
    | inr (x, e) ↦ ground arith
  ]

  confirm-sees :
      (req : UnpublishRequest) (w : Logged W)
      → (confirm_available (watched c d) req w).0 ≡ ok tt
      → sees_detached req (confirm_available (watched c d) req w).1.1 ≡ true
  unfolding confirm_available
  confirm-sees req w h = elim (Reply-cases (c.get_volume req.volume_id w.0).0) [
    | inl (v, e) ↦ ground (arith, ==-refl req.volume_id)
    | inr (x, e) ↦ ground arith
  ]

  module _ (req : UnpublishRequest) (v : Volume) (w : Logged W) where
    abbrev asked : Logged W
    asked = ((watched c d).civo_client.detach_volume req.volume_id w).1

    writes-detach_found : writes (detach_found (recorded_host host) (watched c d) req v w).1.1 ≡ (
        if calls_detach req.node_id v
        then detached req.volume_id (c.detach_volume req.volume_id w.0).0 ∷ writes w.1
        else writes w.1)
    unfolding detach_found
    writes-detach_found = elim (Reply-cases (c.detach_volume req.volume_id w.0).0) [
      | inl (_, e) ↦ ground (
        arith,
        statuses,
        writes-confirm req ((recorded_host host).sleep 5 w),
        writes-confirm req ((recorded_host host).sleep 5 asked),
      )
      | inr (_, e) ↦ ground (arith, statuses, writes-confirm req ((recorded_host host).sleep 5 w))
    ]

    detach_found-sees :
        sees_detached req w.1 ≡ (v.status == "available" || not (v.instance_id == req.node_id))
        → (detach_found (recorded_host host) (watched c d) req v w).0 ≡ ok tt
        → sees_detached req (detach_found (recorded_host host) (watched c d) req v w).1.1 ≡ true
    unfolding detach_found
    detach_found-sees seen h = elim (Reply-cases (c.detach_volume req.volume_id w.0).0) [
      | inl (_, e) ↦ ground (
        arith,
        confirm-sees req ((recorded_host host).sleep 5 w),
        confirm-sees req ((recorded_host host).sleep 5 asked),
      )
      | inr (_, e) ↦ ground (arith, confirm-sees req ((recorded_host host).sleep 5 w))
    ]

  -- For a volume that is found, ControllerUnpublishVolume calls DetachVolume once if the volume is
  -- on the requested node and neither available nor detaching, and not at all otherwise; nothing
  -- else is written.
  pub unpublish_writes :
      (req : UnpublishRequest) (v : Volume) (w : W)
      → req.volume_id ≢ ""
      → (c.get_volume req.volume_id w).0 ≡ reply v
      → writes (controller_unpublish_volume (recorded_host host) (watched c d) req (w, [])).1.1 ≡ (
          if calls_detach req.node_id v
          then detached req.volume_id
              (c.detach_volume req.volume_id (c.get_volume req.volume_id w).1).0
            ∷ []
          else [])
  unfolding controller_unpublish_volume
  unpublish_writes req v w named ev =
      let read = ((watched c d).civo_client.get_volume req.volume_id (w, [])).1 in
      ground (arith, writes-detach_found req v read)

  -- If ControllerUnpublishVolume succeeds, then its last call read the volume and found it
  -- available, or on another node than the requested one, or the API said that it is gone.
  unpublish-sees :
      (req : UnpublishRequest) (w : W)
      → let out = controller_unpublish_volume (recorded_host host) (watched c d) req (w, []) in
        out.0 ≡ ok tt → sees_detached req out.1.1 ≡ true
  unfolding controller_unpublish_volume
  unpublish-sees req w h =
      let read = ((watched c d).civo_client.get_volume req.volume_id (w, [])).1 in
      elim (Reply-cases (c.get_volume req.volume_id w).0) [
        | inl (v, e) ↦ ground (arith, ==-refl req.volume_id, detach_found-sees req v read)
        | inr (x, e) ↦ ground (arith, ==-refl req.volume_id)
      ]
