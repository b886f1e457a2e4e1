-- ===== src/Node/Blind.antt =====
-- Which errors of the disk plugger staging and publishing do not see.
use civo_csi.Base.{String, ◌≡◌, arith}
use civo_csi.Action.{Action, ok, err, panic, Error}
use civo_csi.Csi.{StageRequest, NodePublishRequest}
use civo_csi.Disk.{DiskHotPlugger}
use civo_csi.Host.{Host}
use civo_csi.Driver.{Driver}
use civo_csi.Node.Stage.{ensure_formatted, ensure_staged, node_stage_volume}
use civo_csi.Node.Publish.{ensure_bound, node_publish_volume}

-- An action that does the same and answers an error.
abbrev pub fails : {W : Type 0} → Error → Action W (Unit {0}) → Action W (Unit {0})
fails e m w = let (o, w') = m w in (elim o [ ok _ ↦ err e | err _ ↦ err e | panic ↦ panic ], w')

-- The disk plugger whose Format and Mount answer an error, whatever they did.
abbrev pub failing : {W : Type 0} → Error → DiskHotPlugger W → DiskHotPlugger W
failing e p = record p {
  format = λ path fs. fails e (p.format path fs);
  mount = λ path target fs flags. fails e (p.mount path target fs flags);
}

module _ {W : Type 0} (host : Host W) (d : Driver W) (e : Error) where
  abbrev pub with_errors : Driver W
  with_errors = record d { disk_hot_plugger = failing e d.disk_hot_plugger }

  formatted_blind :
      (id path : String) (w : W)
      → ensure_formatted with_errors id path w ≡ ensure_formatted d id path w
  unfolding ensure_formatted
  formatted_blind id path w = ground arith

  staged_blind :
      (req : StageRequest) (w : W) → ensure_staged with_errors req w ≡ ensure_staged d req w
  unfolding ensure_staged
  staged_blind req w = ground arith

  -- NodeStageVolume and NodePublishVolume, for any request and over any disk plugger, do and answer
  -- the same when every call of Format and Mount that they make answers a given error in place of
  -- its own answer: none of these errors is seen.
  pub stage_blind :
      (s : StageRequest) (p : NodePublishRequest) (w : W)
      → (node_stage_volume with_errors s w ≡ node_stage_volume d s w)
        × (node_publish_volume host with_errors p w ≡ node_publish_volume host d p w)
  unfolding node_stage_volume node_publish_volume ensure_bound
  stage_blind s p w =
      let (path, w₁) = d.disk_hot_plugger.path_for_volume s.volume_id w in
      let w₂ = (ensure_formatted d s.volume_id path w₁).1 in
      (ground (arith, formatted_blind s.volume_id path w₁, staged_blind s w₂), ground arith)
