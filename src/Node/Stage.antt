-- ===== src/Node/Stage.antt =====
-- `NodeStageVolume` and `NodeUnstageVolume`
pub mod Calls
use civo_csi.Base.{String, ◌==◌, Option, none, some, Bool, true, false, List, [], if◌then◌else◌}
use civo_csi.Action.{
  Action, Error, status, text_arg, end, not_found, invalid_argument, ◌>>=◌, ◌>>◌, pure, raise_if,
  read, ignore_error,
}
use civo_csi.Csi.{AccessType, mount, VolumeCapability, StageRequest, UnstageRequest}
use civo_csi.Driver.{Driver}
use civo_csi.Controller.Create.{invalid}
use civo_csi.Controller.Publish.{is_nil}

-- `req.VolumeCapability.GetMount()`, and the flags of a mount
abbrev pub mount_flags : Option VolumeCapability → List String
mount_flags none = []
mount_flags (some c) = elim c.access_type [ mount flags ↦ flags | _ ↦ [] ]

module _ {W : Type 0} (d : Driver W) where
  -- The path is looked up anew for each use.
  abbrev pub path_for : String → Action W String
  path_for id = read (d.disk_hot_plugger.path_for_volume id)

  -- The error of Format is not looked at.
  unfoldable pub ensure_formatted : String → String → Action W (Unit {0})
  ensure_formatted id path = do
    formatted ← d.disk_hot_plugger.is_formatted path
    if formatted
        then pure tt
        else (do device ← path_for id; ignore_error (d.disk_hot_plugger.format device "ext4"))

  -- The test is on the device, and the error of Mount is not looked at.
  unfoldable pub ensure_staged : StageRequest → Action W (Unit {0})
  ensure_staged req = do
    device ← path_for req.volume_id
    mounted ← d.disk_hot_plugger.is_mounted device
    if mounted then pure tt else (do
      source ← path_for req.volume_id
      ignore_error (
          d.disk_hot_plugger.mount source req.staging_target_path "ext4"
            (mount_flags req.volume_capability)))

  unfoldable pub node_stage_volume : StageRequest → Action W (Unit {0})
  node_stage_volume req = do
    raise_if (req.volume_id == "") (invalid "must provide a VolumeId to NodeStageVolume")
    raise_if (req.staging_target_path == "")
        (invalid "must provide a StagingTargetPath to NodeStageVolume")
    raise_if (is_nil req.volume_capability)
        (invalid "must provide a VolumeCapability to NodeStageVolume")
    path ← path_for req.volume_id
    raise_if (path == "") (
        status not_found "path to volume (/dev/disk/by-id/%s) not found"
          (text_arg req.volume_id end))
    ensure_formatted req.volume_id path
    ensure_staged req

  unfoldable pub node_unstage_volume : UnstageRequest → Action W (Unit {0})
  node_unstage_volume req = do
    raise_if (req.volume_id == "") (invalid "must provide a VolumeId to NodeUnstageVolume")
    raise_if (req.staging_target_path == "")
        (invalid "must provide a StagingTargetPath to NodeUnstageVolume")
    mounted ← d.disk_hot_plugger.is_mounted req.staging_target_path
    if mounted then d.disk_hot_plugger.unmount req.staging_target_path else pure tt
