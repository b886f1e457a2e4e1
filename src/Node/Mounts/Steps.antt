-- ===== src/Node/Mounts/Steps.antt =====
-- Each call of the node service changes the mounts as its specification says.
use civo_csi.Base.{List, Bool, false, String, ◌≡◌, ◌≢◌, true, inl, inr, Bool-cases, arith}
use civo_csi.Action.{Outcome, ok}
use civo_csi.Csi.{StageRequest, UnstageRequest, NodePublishRequest, NodeUnpublishRequest}
use civo_csi.Disk.Contract.{Mounts, KeepsMounts}
use civo_csi.Host.{Host}
use civo_csi.Driver.{Driver}
use civo_csi.Node.Stage.{
  mount_flags, ensure_formatted, ensure_staged, node_stage_volume, node_unstage_volume,
}
use civo_csi.Node.Stage.Calls.{is_stageable}
use civo_csi.Node.Publish.{
  bind_options, ensure_bound, node_publish_volume, clear_target, release_target,
  node_unpublish_volume,
}
use civo_csi.Node.Publish.Targets.{is_publishable}
use civo_csi.Node.Mounts.{
  is_unstageable, is_unpublishable, ensure_mounted, stage, unstage, publish, unpublish, change,
  Works,
}

module _ {W : Type 0} (host : Host W) (d : Driver W) (mounts : W → Mounts)
    (device : String → String) (allowed : List String → Bool)
    (keeps : KeepsMounts allowed d.disk_hot_plugger mounts)
    (works : Works host d mounts device) where
  -- What a step of a call comes to: it succeeds, and the mounts are then as given.
  abbrev Leaves : Outcome (Unit {0}) × W → Mounts → Type 0
  Leaves out f = (out.0 ≡ ok tt) × ((u : String) → mounts out.1 u ≡ f u)

  formatted_after : (id : String) (w : W) → Leaves (ensure_formatted d id (device id) w) (mounts w)
  unfolding ensure_formatted
  formatted_after id w =
      let (b, e) = works.is_formatted_answers id w in
      let w₁ = (d.disk_hot_plugger.is_formatted (device id) w).1 in
      let w₂ = (d.disk_hot_plugger.path_for_volume id w₁).1 in
      (
        ground (arith, works.path id w₁, works.formats id w₂),
        λ u. ground (
          arith,
          keeps.is_formatted_keeps (device id) w u,
          keeps.path_keeps id w₁ u,
          works.path id w₁,
          keeps.format_keeps (device id) "ext4" w₂ u,
        ),
      )

  staged_after :
      (req : StageRequest) (w : W)
      → req.staging_target_path ≢ ""
      → allowed (mount_flags req.volume_capability) ≡ true
      → Leaves
          (ensure_staged d req w)
          (ensure_mounted (device req.volume_id) req.staging_target_path (mounts w))
  unfolding ensure_staged
  staged_after req w there plain =
      let id = req.volume_id in
      let w₁ = (d.disk_hot_plugger.path_for_volume id w).1 in
      let (b, e) = works.is_mounted_answers (device id) w₁ (works.attached id) in
      let w₂ = (d.disk_hot_plugger.is_mounted (device id) w₁).1 in
      let w₃ = (d.disk_hot_plugger.path_for_volume id w₂).1 in
      let flags = mount_flags req.volume_capability in
      let mounted = works.mounts_ok (device id) req.staging_target_path flags w₃ there in
      (
        ground (arith, works.path id w, works.path id w₂, mounted),
        λ u. ground (
          arith,
          works.path id w,
          works.path id w₂,
          keeps.is_mounted_says (device id) w₁ b e,
          keeps.path_keeps id w (device id),
          keeps.path_keeps id w u,
          keeps.is_mounted_keeps (device id) w₁ u,
          keeps.path_keeps id w₂ u,
          keeps.mount_adds (device id) req.staging_target_path "ext4" flags w₃ u plain mounted,
        ),
      )

  -- Staging a complete request succeeds, and mounts on the staging path unless the device is a
  -- mount point.
  pub stage_after :
      (req : StageRequest) (w : W)
      → is_stageable req ≡ true
      → allowed (mount_flags req.volume_capability) ≡ true
      → Leaves (node_stage_volume d req w) (change device (stage req) (mounts w))
  unfolding node_stage_volume
  stage_after req w complete plain =
      let id = req.volume_id in
      let w₁ = (d.disk_hot_plugger.path_for_volume id w).1 in
      let w₂ = (ensure_formatted d id (device id) w₁).1 in
      let (formatted, same) = formatted_after id w₁ in
      let (staged, after) = staged_after req w₂ (ground arith) plain in
      (
        ground (arith, works.path id w, works.attached id, formatted, staged),
        λ u. ground (
          arith,
          works.path id w,
          works.attached id,
          formatted,
          after u,
          same u,
          same (device id),
          keeps.path_keeps id w u,
          keeps.path_keeps id w (device id),
        ),
      )

  pub unstage_after :
      (req : UnstageRequest) (w : W)
      → is_unstageable req ≡ true
      → Leaves (node_unstage_volume d req w) (change device (unstage req) (mounts w))
  unfolding node_unstage_volume
  unstage_after req w complete =
      let target = req.staging_target_path in
      let (b, e) = works.is_mounted_answers target w (ground arith) in
      let w₁ = (d.disk_hot_plugger.is_mounted target w).1 in
      let says = keeps.is_mounted_says target w b e in
      let same = keeps.is_mounted_keeps target w target in
      elim (Bool-cases b) [
        | inl mounted ↦
            let done = works.unmounts_ok target w₁ (ground arith) in
            (
              ground (arith, done),
              λ u.
                  ground (
                    arith,
                    keeps.is_mounted_keeps target w u,
                    keeps.unmount_drops target w₁ u done,
                  ),
            )
        | inr free ↦ (ground arith, λ u. ground (arith, keeps.is_mounted_keeps target w u))
      ]

  bind_allowed : (readonly : Bool) → allowed (bind_options readonly) ≡ true
  bind_allowed false = keeps.allows_bind
  bind_allowed true = keeps.allows_bind_ro

  pub publish_after :
      (req : NodePublishRequest) (w : W)
      → is_publishable req ≡ true
      → Leaves (node_publish_volume host d req w) (change device (publish req) (mounts w))
  unfolding node_publish_volume ensure_bound
  publish_after req w complete =
      let target = req.target_path in
      let w₁ = (host.mkdir_all target w).1 in
      let (b, e) = works.is_mounted_answers target w₁ (ground arith) in
      let w₂ = (d.disk_hot_plugger.is_mounted target w₁).1 in
      let flags = bind_options req.readonly in
      let mounted = works.mounts_ok req.staging_target_path target flags w₂ (ground arith) in
      let says = keeps.is_mounted_says target w₁ b e in
      (
        ground (arith, works.makes target w, mounted),
        λ u. ground (
          arith,
          works.makes target w,
          works.mkdir_keeps target w u,
          works.mkdir_keeps target w target,
          keeps.is_mounted_keeps target w₁ u,
          keeps.mount_adds req.staging_target_path target "ext4" flags w₂ u
              (bind_allowed req.readonly) mounted,
        ),
      )

  pub unpublish_after :
      (req : NodeUnpublishRequest) (w : W)
      → is_unpublishable req ≡ true
      → Leaves (node_unpublish_volume host d req w) (change device (unpublish req) (mounts w))
  unfolding node_unpublish_volume release_target clear_target
  unpublish_after req w complete =
      let target = req.target_path in
      let (b, e) = works.is_mounted_answers target w (ground arith) in
      let w₁ = (d.disk_hot_plugger.is_mounted target w).1 in
      let says = keeps.is_mounted_says target w b e in
      let same = keeps.is_mounted_keeps target w target in
      elim (Bool-cases b) [
        | inl mounted ↦
            let done = works.unmounts_ok target w₁ (ground arith) in
            let w₂ = (d.disk_hot_plugger.unmount target w₁).1 in
            (
              ground (arith, done, works.removes target w₂),
              λ u. ground (
                arith,
                keeps.is_mounted_keeps target w u,
                keeps.unmount_drops target w₁ u done,
                works.removes target w₂,
                works.remove_keeps target w₂ u,
              ),
            )
        | inr free ↦ (
          ground (arith, works.removes_all target w₁),
          λ u. ground (
            arith,
            keeps.is_mounted_keeps target w u,
            works.removes_all target w₁,
            works.remove_all_keeps target w₁ u,
          ),
        )
      ]
