-- ===== src/Controller/Places/Stays.antt =====
-- Sequences of ControllerPublishVolume and ControllerUnpublishVolume.
use civo_csi.Base.{String, ◌≡◌, ◌≢◌, false, some, List, [], ◌∷◌, any, arith}
use civo_csi.Action.{ok}
use civo_csi.Csi.{PublishRequest}
use civo_csi.Host.{Host}
use civo_csi.Driver.{Driver}
use civo_csi.Controller.Publish.{controller_publish_volume}
use civo_csi.Controller.Places.{
  Places, KeepsPlaces, AttachCall, publish, unpublish, frees, call_attach, run_attach,
}
use civo_csi.Controller.Places.Steps.{publish_stays, publish_places, unpublish_stays}

module _ {W : Type 0} (host : Host W) (d : Driver W) (placed : W → Places)
    (laws : KeepsPlaces host d.civo_client placed) where
  run_stays :
      (cs : List AttachCall) (w : W) (id node : String)
      → any (frees id node) cs ≡ false
      → placed w id ≡ some (node, "attached")
      → placed (run_attach host d cs w) id ≡ some (node, "attached")
  run_stays [] w id node keeps at = at
  run_stays (publish req ∷ cs) w id node keeps at =
      run_stays cs (controller_publish_volume host d req w).1 id node keeps
        (publish_stays host d placed laws req w id node at)
  run_stays (unpublish req ∷ cs) w id node keeps at =
      run_stays cs (call_attach host d (unpublish req) w).1 id node (ground arith)
        (unpublish_stays host d placed laws req w id node (ground arith) at)

  -- Over an API that is used by this driver only, a volume for which ControllerPublishVolume
  -- succeeded is attached to the requested node, and stays attached to it through any sequence of
  -- ControllerPublishVolume and ControllerUnpublishVolume, for whatever volumes and nodes and with
  -- whatever outcomes, in which no unpublishing names that volume and that node.
  pub published_stays :
      (req : PublishRequest) (cs : List AttachCall) (w : W)
      → (controller_publish_volume host d req w).0 ≡ ok tt
      → any (frees req.volume_id req.node_id) cs ≡ false
      → placed (run_attach host d (publish req ∷ cs) w) req.volume_id
        ≡ some (req.node_id, "attached")
  published_stays req cs w h keeps =
      run_stays cs (controller_publish_volume host d req w).1 req.volume_id req.node_id keeps
        (publish_places host d placed laws req w h)

  -- Over an API that is used by this driver only, once ControllerPublishVolume succeeded for a volume
  -- and a node, it succeeds for no other node and the same volume until an unpublishing names that
  -- volume and that node: a volume is published to one node at a time.
  pub published_once :
      (a b : PublishRequest) (cs : List AttachCall) (w : W)
      → b.volume_id ≡ a.volume_id
      → b.node_id ≢ a.node_id
      → (controller_publish_volume host d a w).0 ≡ ok tt
      → any (frees a.volume_id a.node_id) cs ≡ false
      → (controller_publish_volume host d b (run_attach host d (publish a ∷ cs) w)).0 ≢ ok tt
  published_once a b cs w same other h keeps again =
      let w' = run_attach host d (publish a ∷ cs) w in
      let stays =
        publish_stays host d placed laws b w' a.volume_id a.node_id
          (published_stays a cs w h keeps) in
      ground (arith, stays, publish_places host d placed laws b w' again)
