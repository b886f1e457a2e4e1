-- ===== src/Node/Mounts/Runs.antt =====
-- Sequences of node calls against the mounts.
use mathlib.Core.Path.{fun_ext}
use civo_csi.Base.{
  Bool, true, all, String, ◌≡◌, ◌∙◌, ap, refl, false, List, [], ◌∷◌, inl, inr, Bool-cases, arith,
}
use civo_csi.Csi.{UnstageRequest, NodeUnpublishRequest}
use civo_csi.Disk.Contract.{Mounts, KeepsMounts}
use civo_csi.Host.{Host}
use civo_csi.Driver.{Driver}
use civo_csi.Node.Stage.{node_unstage_volume}
use civo_csi.Node.Stage.Calls.{is_stageable, stage-rejects}
use civo_csi.Node.Publish.{node_unpublish_volume}
use civo_csi.Node.Publish.Targets.{is_publishable, node_publish-rejects}
use civo_csi.Node.Mounts.{
  is_unstageable, is_unpublishable, NodeCall, stage, unstage, publish, unpublish, change, replay,
  asks_allowed, call_node, run_node, Works,
}
use civo_csi.Node.Mounts.Steps.{stage_after, unstage_after, publish_after, unpublish_after}

module _ {W : Type 0} (host : Host W) (d : Driver W) where
  unstage-rejects :
      (req : UnstageRequest) (w : W)
      → is_unstageable req ≡ false
      → (node_unstage_volume d req w).1 ≡ w
  unfolding node_unstage_volume
  unstage-rejects req w h = ground arith

  unpublish-rejects :
      (req : NodeUnpublishRequest) (w : W)
      → is_unpublishable req ≡ false
      → (node_unpublish_volume host d req w).1 ≡ w
  unfolding node_unpublish_volume
  unpublish-rejects req w h = ground arith

module _ {W : Type 0} (host : Host W) (d : Driver W) (mounts : W → Mounts)
    (device : String → String) (allowed : List String → Bool)
    (keeps : KeepsMounts allowed d.disk_hot_plugger mounts)
    (works : Works host d mounts device) where
  call_changes :
      (c : NodeCall) (w : W)
      → asks_allowed allowed c ≡ true
      → mounts (call_node host d c w).1 ≡ change device c (mounts w)
  call_changes (stage req) w plain = elim (Bool-cases (is_stageable req)) [
    | inl complete ↦
        fun_ext (stage_after host d mounts device allowed keeps works req w complete plain).1
    | inr lacking ↦ fun_ext λ u. ground (arith, stage-rejects d req w)
  ]
  call_changes (unstage req) w plain = elim (Bool-cases (is_unstageable req)) [
    | inl complete ↦
        fun_ext (unstage_after host d mounts device allowed keeps works req w complete).1
    | inr lacking ↦ fun_ext λ u. ground (arith, unstage-rejects host d req w)
  ]
  call_changes (publish req) w plain = elim (Bool-cases (is_publishable req)) [
    | inl complete ↦
        fun_ext (publish_after host d mounts device allowed keeps works req w complete).1
    | inr lacking ↦ fun_ext λ u. ground (arith, node_publish-rejects host d req w)
  ]
  call_changes (unpublish req) w plain = elim (Bool-cases (is_unpublishable req)) [
    | inl complete ↦
        fun_ext (unpublish_after host d mounts device allowed keeps works req w complete).1
    | inr lacking ↦ fun_ext λ u. ground (arith, unpublish-rejects host d req w)
  ]

  -- On a node on which nothing fails, over a disk plugger that keeps the mounts for the allowed mount
  -- flags, any sequence of NodeStageVolume, NodeUnstageVolume, NodePublishVolume and
  -- NodeUnpublishVolume whose stagings ask for allowed mount flags leaves the mounts that the replay
  -- of their specifications gives.
  pub run_node_refines :
      (cs : List NodeCall) (w : W)
      → all (asks_allowed allowed) cs ≡ true
      → mounts (run_node host d cs w) ≡ replay device cs (mounts w)
  run_node_refines [] w plain = refl
  run_node_refines (c ∷ cs) w plain =
      run_node_refines cs (call_node host d c w).1 (ground arith)
      ∙ ap (replay device cs) (call_changes c w (ground arith))
