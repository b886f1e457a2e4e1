-- ===== src/Controller/Places/Steps.antt =====
-- One call of ControllerPublishVolume or ControllerUnpublishVolume leaves a volume where it is
-- attached, unless it is asked to free it.
use civo_csi.Base.{String, ◌==◌, ◌≡◌, ◌≢◌, ◌∙◌, inl, inr, false, ◌&&◌, some, arith, string_dec}
use civo_csi.Action.{ok, Reply-cases}
use civo_csi.Api.{Volume}
use civo_csi.Csi.{PublishRequest, UnpublishRequest}
use civo_csi.Host.{Host}
use civo_csi.Driver.{Driver}
use civo_csi.Controller.Statuses.{statuses}
use civo_csi.Controller.Publish.{
  attach_config, request_attach, confirm_attached, attach_found, controller_publish_volume,
}
use civo_csi.Controller.Unpublish.{
  request_detach, confirm_available, detach_found, controller_unpublish_volume,
}
use civo_csi.Controller.Places.{Places, KeepsPlaces}

module _ {W : Type 0} (host : Host W) (d : Driver W) (placed : W → Places)
    (laws : KeepsPlaces host d.civo_client placed) where
  abbrev At : W → String → String → Type 0
  At w id node = placed w id ≡ some (node, "attached")

  confirm_attached-keeps :
      (req : PublishRequest) (w : W) (v : String)
      → placed (confirm_attached d req w).1 v ≡ placed w v
  unfolding confirm_attached
  confirm_attached-keeps req w v = elim (Reply-cases (d.civo_client.get_volume req.volume_id w).0) [
    | inl (u, e) ↦ ground (arith, laws.get_keeps req.volume_id w v)
    | inr (x, e) ↦ ground (arith, laws.get_keeps req.volume_id w v)
  ]

  confirm_attached-places :
      (req : PublishRequest) (w : W)
      → (confirm_attached d req w).0 ≡ ok tt
      → At w req.volume_id req.node_id
  unfolding confirm_attached
  confirm_attached-places req w h =
      elim (Reply-cases (d.civo_client.get_volume req.volume_id w).0) [
        | inl (u, e) ↦ ground (arith, laws.reads req.volume_id w u e)
        | inr (x, e) ↦ ground arith
      ]

  pub confirm_available-keeps :
      (req : UnpublishRequest) (w : W) (v : String)
      → placed (confirm_available d req w).1 v ≡ placed w v
  unfolding confirm_available
  confirm_available-keeps req w v =
      elim (Reply-cases (d.civo_client.get_volume req.volume_id w).0) [
        | inl (u, e) ↦ ground (arith, laws.get_keeps req.volume_id w v)
        | inr (x, e) ↦ ground (arith, laws.get_keeps req.volume_id w v)
      ]

  -- A volume that is attached stays so while another is attached.
  attach_found-elsewhere :
      (req : PublishRequest) (u : Volume) (w : W) (id node : String)
      → id ≢ req.volume_id
      → At w id node
      → At (attach_found host d req u w).1 id node
  unfolding attach_found request_attach
  attach_found-elsewhere req u w id node apart at =
      let config = attach_config d req.node_id in
      let w₁ = (d.civo_client.attach_volume req.volume_id config w).1 in
      let same = laws.attach_elsewhere req.volume_id config w id apart in
      ground (
        arith,
        laws.sleep_keeps 5 w id node at,
        confirm_attached-keeps req (host.sleep 5 w) id,
        laws.sleep_keeps 5 w₁ id node (same ∙ at),
        confirm_attached-keeps req (host.sleep 5 w₁) id,
        same,
      )

  -- A volume that is attached is not attached anew.
  attach_found-attached :
      (req : PublishRequest) (u : Volume) (w : W) (id node : String)
      → id ≡ req.volume_id
      → placed w req.volume_id ≡ some (u.instance_id, u.status)
      → At w id node
      → At (attach_found host d req u w).1 id node
  unfolding attach_found
  attach_found-attached req u w id node same seen at = ground (arith, statuses)

  attach_found-stays :
      (req : PublishRequest) (u : Volume) (w : W) (id node : String)
      → placed w req.volume_id ≡ some (u.instance_id, u.status)
      → At w id node
      → At (attach_found host d req u w).1 id node
  attach_found-stays req u w id node seen at = elim (string_dec id req.volume_id) [
    | no apart ↦ attach_found-elsewhere req u w id node apart at
    | yes same ↦ attach_found-attached req u w id node same seen at
  ]

  pub publish_stays :
      (req : PublishRequest) (w : W) (id node : String)
      → At w id node
      → At (controller_publish_volume host d req w).1 id node
  unfolding controller_publish_volume
  publish_stays req w id node at =
      let (r, w₁) = d.civo_client.get_kubernetes_cluster d.cluster_id w in
      let (r', w₂) = d.civo_client.get_volume req.volume_id w₁ in
      let here = laws.cluster_keeps d.cluster_id w id in
      let then_here = laws.get_keeps req.volume_id w₁ id in
      elim (Reply-cases r) [
        | inr (x, e) ↦ ground arith
        | inl (cluster, e) ↦ elim (Reply-cases r') [
          | inr (x, e') ↦ ground arith
          | inl (u, e') ↦ ground (
            arith,
            attach_found-stays req u w₂ id node
                (laws.get_keeps req.volume_id w₁ req.volume_id ∙ laws.reads req.volume_id w₁ u e')
                (then_here ∙ here ∙ at),
          )
        ]
      ]

  attach_found-places :
      (req : PublishRequest) (u : Volume) (w : W)
      → placed w req.volume_id ≡ some (u.instance_id, u.status)
      → (attach_found host d req u w).0 ≡ ok tt
      → At (attach_found host d req u w).1 req.volume_id req.node_id
  unfolding attach_found request_attach
  attach_found-places req u w seen h =
      let config = attach_config d req.node_id in
      let w₁ = (d.civo_client.attach_volume req.volume_id config w).1 in
      let at = host.sleep 5 w in
      let later = host.sleep 5 w₁ in
      ground (
        arith,
        confirm_attached-places req at,
        confirm_attached-keeps req at req.volume_id,
        confirm_attached-places req later,
        confirm_attached-keeps req later req.volume_id,
      )

  -- A publish that succeeds leaves the volume attached to the node.
  pub publish_places :
      (req : PublishRequest) (w : W)
      → (controller_publish_volume host d req w).0 ≡ ok tt
      → At (controller_publish_volume host d req w).1 req.volume_id req.node_id
  unfolding controller_publish_volume
  publish_places req w h =
      let (r, w₁) = d.civo_client.get_kubernetes_cluster d.cluster_id w in
      let (r', w₂) = d.civo_client.get_volume req.volume_id w₁ in
      elim (Reply-cases r) [
        | inr (x, e) ↦ ground arith
        | inl (cluster, e) ↦ elim (Reply-cases r') [
          | inr (x, e') ↦ ground arith
          | inl (u, e') ↦ ground (
            arith,
            attach_found-places req u w₂
                (laws.get_keeps req.volume_id w₁ req.volume_id ∙ laws.reads req.volume_id w₁ u e'),
          )
        ]
      ]

  detach_found-elsewhere :
      (req : UnpublishRequest) (u : Volume) (w : W) (id node : String)
      → id ≢ req.volume_id
      → At w id node
      → At (detach_found host d req u w).1 id node
  unfolding detach_found request_detach
  detach_found-elsewhere req u w id node apart at =
      let w₁ = (d.civo_client.detach_volume req.volume_id w).1 in
      let same = laws.detach_elsewhere req.volume_id w id apart in
      ground (
        arith,
        laws.sleep_keeps 5 w id node at,
        confirm_available-keeps req (host.sleep 5 w) id,
        laws.sleep_keeps 5 w₁ id node (same ∙ at),
        confirm_available-keeps req (host.sleep 5 w₁) id,
        same,
      )

  detach_found-other_node :
      (req : UnpublishRequest) (u : Volume) (w : W) (id node : String)
      → id ≡ req.volume_id
      → req.node_id ≢ node
      → placed w req.volume_id ≡ some (u.instance_id, u.status)
      → At w id node
      → At (detach_found host d req u w).1 id node
  unfolding detach_found
  detach_found-other_node req u w id node same other seen at = ground (arith, statuses)

  -- A volume stays attached if another volume, or another node, is asked to be freed.
  pub unpublish_stays :
      (req : UnpublishRequest) (w : W) (id node : String)
      → (req.volume_id == id && req.node_id == node) ≡ false
      → At w id node
      → At (controller_unpublish_volume host d req w).1 id node
  unfolding controller_unpublish_volume
  unpublish_stays req w id node keeps at =
      let (r, w₁) = d.civo_client.get_volume req.volume_id w in
      let here = laws.get_keeps req.volume_id w id in
      elim (Reply-cases r) [
        | inr (x, e) ↦ ground arith
        | inl (u, e) ↦
            let seen =
              laws.get_keeps req.volume_id w req.volume_id ∙ laws.reads req.volume_id w u e in
            ground (
              arith,
              λ (apart : id ≢ req.volume_id).
                  detach_found-elsewhere req u w₁ id node apart (here ∙ at),
              λ (same : id ≡ req.volume_id) (other : req.node_id ≢ node).
                  detach_found-other_node req u w₁ id node same other seen (here ∙ at),
            )
      ]
