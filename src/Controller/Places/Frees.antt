-- ===== src/Controller/Places/Frees.antt =====
-- What a ControllerUnpublishVolume that succeeds says of the volume.
use civo_csi.Base.{contains, ◌||◌, String, ◌≡◌, ◌≢◌, ◌∙◌, inl, inr, true, none, some, arith}
use civo_csi.Action.{ok, ExternalError, failed, Reply-cases}
use civo_csi.Api.{Volume, Clienter}
use civo_csi.Csi.{UnpublishRequest}
use civo_csi.Host.{Host}
use civo_csi.Driver.{Driver}
use civo_csi.Controller.Statuses.{statuses}
use civo_csi.Controller.Unpublish.{
  says_volume_gone, request_detach, confirm_available, detach_found, controller_unpublish_volume,
}
use civo_csi.Controller.Places.{Places, KeepsPlaces}
use civo_csi.Controller.Places.Steps.{confirm_available-keeps}

-- An error that says that there is no such volume is true.
pub record TellsMissing {W : Type 0} (c : Clienter W) (placed : W → Places) : Type 0 where
  pub missing :
      (id : String) (w : W) (x : ExternalError)
      → (c.get_volume id w).0 ≡ failed x
      → (contains x.text "DatabaseVolumeNotFoundError" || contains x.text "ZeroMatchesError") ≡ true
      → placed w id ≡ none

module _ {W : Type 0} (host : Host W) (d : Driver W) (placed : W → Places)
    (laws : KeepsPlaces host d.civo_client placed) where
  confirm_available-places :
      (req : UnpublishRequest) (w : W)
      → (confirm_available d req w).0 ≡ ok tt
      → (node : String) × (placed w req.volume_id ≡ some (node, "available"))
  unfolding confirm_available
  confirm_available-places req w h =
      elim (Reply-cases (d.civo_client.get_volume req.volume_id w).0) [
        | inl (u, e) ↦ (u.instance_id, ground (arith, laws.reads req.volume_id w u e))
        | inr (x, e) ↦ ground arith
      ]

  detach_found-frees :
      (req : UnpublishRequest) (u : Volume) (w : W)
      → placed w req.volume_id ≡ some (u.instance_id, u.status)
      → (detach_found host d req u w).0 ≡ ok tt
      → placed (detach_found host d req u w).1 req.volume_id ≢ some (req.node_id, "attached")
  unfolding detach_found request_detach
  detach_found-frees req u w seen h =
      let w₁ = (d.civo_client.detach_volume req.volume_id w).1 in
      let at = host.sleep 5 w in
      let later = host.sleep 5 w₁ in
      λ (left : placed (detach_found host d req u w).1 req.volume_id
          ≡ some (req.node_id, "attached")).
        ground (
          arith,
          statuses,
          confirm_available-places req at,
          confirm_available-keeps host d placed laws req at req.volume_id,
          confirm_available-places req later,
          confirm_available-keeps host d placed laws req later req.volume_id,
        )

  -- Over an API that is used by this driver only and whose reads tell the truth, also on a volume
  -- that is not there, a volume for which ControllerUnpublishVolume succeeded is not attached to
  -- the node of the request: on each branch that answers success.
  pub unpublished_frees :
      (tells : TellsMissing d.civo_client placed) (req : UnpublishRequest) (w : W)
      → (controller_unpublish_volume host d req w).0 ≡ ok tt
      → placed (controller_unpublish_volume host d req w).1 req.volume_id
        ≢ some (req.node_id, "attached")
  unfolding controller_unpublish_volume says_volume_gone
  unpublished_frees tells req w h =
      let (r, w₁) = d.civo_client.get_volume req.volume_id w in
      let same = laws.get_keeps req.volume_id w req.volume_id in
      elim (Reply-cases r) [
        | inr (x, e) ↦ λ left. ground (arith, same, tells.missing req.volume_id w x e)
        | inl (u, e) ↦ λ left.
            ground (arith, detach_found-frees req u w₁ (same ∙ laws.reads req.volume_id w u e))
      ]
