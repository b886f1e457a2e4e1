-- ===== src/Controller/Places.antt =====
-- The node and the status of each volume, under calls of `ControllerPublishVolume` and
-- `ControllerUnpublishVolume` in any order.
pub mod Steps
pub mod Stays
pub mod Frees
use civo_csi.Base.{ℕ, String, ◌==◌, ◌≡◌, ◌≢◌, ◌&&◌, Bool, false, Option, some, List, [], ◌∷◌}
use civo_csi.Action.{Outcome, reply}
use civo_csi.Api.{Volume, VolumeAttachConfig, Clienter}
use civo_csi.Csi.{PublishRequest, UnpublishRequest}
use civo_csi.Host.{Host}
use civo_csi.Driver.{Driver}
use civo_csi.Controller.Publish.{controller_publish_volume}
use civo_csi.Controller.Unpublish.{controller_unpublish_volume}

-- The node of a volume and its status, or nothing for a volume that is not there
abbrev pub Places : Type 0
Places = String → Option (String × String)

-- Laws of an API that is used by this driver only: a read says where the volume is and changes
-- nothing, a call for one volume moves no other, and a volume that is attached stays so by itself.
pub record KeepsPlaces {W : Type 0} (host : Host W) (c : Clienter W) (placed : W → Places)
    : Type 0 where
  pub cluster_keeps :
      (id : String) (w : W) (v : String) → placed (c.get_kubernetes_cluster id w).1 v ≡ placed w v
  pub get_keeps : (id : String) (w : W) (v : String) → placed (c.get_volume id w).1 v ≡ placed w v
  pub reads :
      (id : String) (w : W) (v : Volume)
      → (c.get_volume id w).0 ≡ reply v
      → placed w id ≡ some (v.instance_id, v.status)
  pub attach_elsewhere :
      (id : String) (config : VolumeAttachConfig) (w : W) (v : String)
      → v ≢ id
      → placed (c.attach_volume id config w).1 v ≡ placed w v
  pub detach_elsewhere :
      (id : String) (w : W) (v : String) → v ≢ id → placed (c.detach_volume id w).1 v ≡ placed w v
  pub sleep_keeps :
      (seconds : ℕ) (w : W) (v node : String)
      → placed w v ≡ some (node, "attached")
      → placed (host.sleep seconds w) v ≡ some (node, "attached")

pub data AttachCall : Type 0 where
  publish : PublishRequest → AttachCall
  unpublish : UnpublishRequest → AttachCall

-- The call asks for the volume to leave the node.
abbrev pub frees : String → String → AttachCall → Bool
frees id node (publish req) = false
frees id node (unpublish req) = req.volume_id == id && req.node_id == node

module _ {W : Type 0} (host : Host W) (d : Driver W) where
  abbrev pub call_attach : AttachCall → W → Outcome (Unit {0}) × W
  call_attach (publish req) = controller_publish_volume host d req
  call_attach (unpublish req) = controller_unpublish_volume host d req

  abbrev pub run_attach : List AttachCall → W → W
  run_attach [] w = w
  run_attach (c ∷ cs) w = run_attach cs (call_attach c w).1
