-- ===== src/Controller/Publish/Calls.antt =====
-- When `ControllerPublishVolume` calls AttachVolume, and what its success rests on.
use civo_csi.Base.{
  String, ◌≡◌, ==-refl, some, List, [], ◌∷◌, inl, inr, arith, ◌==◌, Bool, true, false, not, ◌&&◌,
  if◌then◌else◌,
}
use civo_csi.Action.{ok, reply, Reply-cases, code_of, invalid_argument, not_found}
use civo_csi.Api.{Volume, Cluster, Clienter, Logged, writes, Event, attached, got}
use civo_csi.Host.{Host, recorded_host}
use civo_csi.Driver.{Driver, watched}
use civo_csi.Csi.{PublishRequest}
use civo_csi.Controller.Statuses.{statuses}
use civo_csi.Controller.Publish.{
  is_nil, has_instance, attach_config, confirm_attached, attach_found, controller_publish_volume,
}

-- The volume is to be attached: it is on its way to the node, or free and elsewhere.
abbrev pub calls_attach : String → Volume → Bool
calls_attach node v =
    if v.instance_id == node then v.status == "attaching" else v.status == "available"

abbrev pub is_complete : PublishRequest → Bool
is_complete req =
    not (is_nil req.volume_capability) && (not (req.volume_id == "") && not (req.node_id == ""))

-- The newest event is a read of the requested volume, attached to the requested node.
abbrev pub sees_attached : PublishRequest → List Event → Bool
sees_attached req (got id (reply v) ∷ _) =
    id == req.volume_id && (v.status == "attached" && v.instance_id == req.node_id)
sees_attached req _ = false

module _ {W : Type 0} (host : Host W) (d : Driver W) where
  -- An incomplete request is refused with InvalidArgument, and nothing is called.
  pub publish-rejects :
      (req : PublishRequest) (w : W)
      → is_complete req ≡ false
      → (code_of (controller_publish_volume host d req w).0 ≡ some invalid_argument)
        × ((controller_publish_volume host d req w).1 ≡ w)
  unfolding controller_publish_volume
  publish-rejects req w h = ground arith

module _ {W : Type 0} (host : Host W) (c : Clienter W) (d : Driver (Logged W)) where
  writes-confirm :
      (req : PublishRequest) (w : Logged W)
      → writes (confirm_attached (watched c d) req w).1.1 ≡ writes w.1
  unfolding confirm_attached
  writes-confirm req w = elim (Reply-cases (c.get_volume req.volume_id w.0).0) [
    | inl (v, e) ↦ ground arith
    | inr (x, e) ↦ ground arith
  ]

  writes-attach_found :
      (req : PublishRequest) (v : Volume) (w : Logged W)
      → writes (attach_found (recorded_host host) (watched c d) req v w).1.1 ≡ (
          if calls_attach req.node_id v
          then attached req.volume_id
              (attach_config (watched c d) req.node_id)
              (c.attach_volume req.volume_id (attach_config (watched c d) req.node_id) w.0).0
            ∷ writes w.1
          else writes w.1)
  unfolding attach_found
  writes-attach_found req v w =
      let config = attach_config (watched c d) req.node_id in
      let asked = ((watched c d).civo_client.attach_volume req.volume_id config w).1 in
      elim (Reply-cases (c.attach_volume req.volume_id config w.0).0) [
        | inl (_, e) ↦ ground (
          arith,
          statuses,
          writes-confirm req ((recorded_host host).sleep 5 w),
          writes-confirm req ((recorded_host host).sleep 5 asked),
        )
        | inr (_, e) ↦ ground (arith, statuses, writes-confirm req ((recorded_host host).sleep 5 w))
      ]

  -- For a complete request of ControllerPublishVolume whose node is in the cluster and whose volume
  -- is found, AttachVolume is called once if the volume is available and on another node or none,
  -- or is attaching to the node, and not at all otherwise; nothing else is written.
  pub publish_writes :
      (req : PublishRequest) (cluster : Cluster) (v : Volume) (w : W)
      → is_complete req ≡ true
      → (c.get_kubernetes_cluster d.cluster_id w).0 ≡ reply cluster
      → has_instance req.node_id cluster.instances ≡ true
      → let w' = (c.get_kubernetes_cluster d.cluster_id w).1 in
        (c.get_volume req.volume_id w').0 ≡ reply v
        → let config = attach_config d req.node_id in
          let answer = (c.attach_volume req.volume_id config (c.get_volume req.volume_id w').1).0 in
          writes (controller_publish_volume (recorded_host host) (watched c d) req (w, [])).1.1
          ≡ (if calls_attach req.node_id v then attached req.volume_id config answer ∷ [] else [])
  unfolding controller_publish_volume
  publish_writes req cluster v w complete ec there ev =
      let read =
        ((watched c d).civo_client.get_volume req.volume_id
          ((watched c d).civo_client.get_kubernetes_cluster d.cluster_id (w, [])).1).1 in
      ground (arith, writes-attach_found req v read)

  -- For a complete request for a node that is not in the cluster, ControllerPublishVolume fails
  -- with NotFound and writes nothing.
  publish-not_found :
      (req : PublishRequest) (cluster : Cluster) (w : W)
      → is_complete req ≡ true
      → (c.get_kubernetes_cluster d.cluster_id w).0 ≡ reply cluster
      → has_instance req.node_id cluster.instances ≡ false
      → let out = controller_publish_volume (recorded_host host) (watched c d) req (w, []) in
        (code_of out.0 ≡ some not_found) × (writes out.1.1 ≡ [])
  unfolding controller_publish_volume
  publish-not_found req cluster w complete ec absent = ground arith

  confirm-sees :
      (req : PublishRequest) (w : Logged W)
      → (confirm_attached (watched c d) req w).0 ≡ ok tt
      → sees_attached req (confirm_attached (watched c d) req w).1.1 ≡ true
  unfolding confirm_attached
  confirm-sees req w h = elim (Reply-cases (c.get_volume req.volume_id w.0).0) [
    | inl (v, e) ↦ ground (arith, ==-refl req.volume_id)
    | inr (x, e) ↦ ground arith
  ]

  attach_found-sees :
      (req : PublishRequest) (v : Volume) (w : W) (es : List Event)
      → let from : Logged W = (w, got req.volume_id (reply v) ∷ es) in
        let out = attach_found (recorded_host host) (watched c d) req v from in
        out.0 ≡ ok tt → sees_attached req out.1.1 ≡ true
  unfolding attach_found
  attach_found-sees req v w es h =
      let from : Logged W = (w, got req.volume_id (reply v) ∷ es) in
      let config = attach_config (watched c d) req.node_id in
      let asked = ((watched c d).civo_client.attach_volume req.volume_id config from).1 in
      elim (Reply-cases (c.attach_volume req.volume_id config w).0) [
        | inl (_, e) ↦ ground (
          arith,
          ==-refl req.volume_id,
          confirm-sees req ((recorded_host host).sleep 5 from),
          confirm-sees req ((recorded_host host).sleep 5 asked),
        )
        | inr (_, e) ↦
            ground
              (arith, ==-refl req.volume_id, confirm-sees req ((recorded_host host).sleep 5 from))
      ]

  -- If ControllerPublishVolume succeeds, then its last call read the requested volume, in the
  -- status attached and on the requested node.
  publish-sees :
      (req : PublishRequest) (w : W)
      → let out = controller_publish_volume (recorded_host host) (watched c d) req (w, []) in
        out.0 ≡ ok tt → sees_attached req out.1.1 ≡ true
  unfolding controller_publish_volume
  publish-sees req w h =
      let (r, (w', es)) = (watched c d).civo_client.get_kubernetes_cluster d.cluster_id (w, []) in
      elim (Reply-cases r) [
        | inr (_, e) ↦ ground arith
        | inl (cluster, e) ↦ elim (Reply-cases (c.get_volume req.volume_id w').0) [
          | inl (v, e') ↦
              ground (arith, attach_found-sees req v (c.get_volume req.volume_id w').1 es)
          | inr (_, e') ↦ ground arith
        ]
      ]
