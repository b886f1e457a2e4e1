-- ===== src/Node/Publish.antt =====
-- `NodePublishVolume` and `NodeUnpublishVolume`
pub mod Targets
use civo_csi.Base.{String, ◌==◌, Bool, true, false, not, List, [], ◌∷◌, inl, inr, if◌then◌else◌}
use civo_csi.Action.{
  Action, Error, external, status, text_arg, error_arg, end, internal, is_not_exist,
  is_corrupted_mnt, reply, failed, ◌>>=◌, ◌>>◌, pure, raise, raise_if, call, call_or, try, attempt,
  ignore_error,
}
use civo_csi.Csi.{NodePublishRequest, NodeUnpublishRequest}
use civo_csi.Host.{Host}
use civo_csi.Driver.{Driver}
use civo_csi.Controller.Create.{invalid}
use civo_csi.Controller.Publish.{is_nil}

abbrev pub bind_options : Bool → List String
bind_options readonly = if readonly then "bind" ∷ "ro" ∷ [] else "bind" ∷ []

module _ {W : Type 0} (host : Host W) (d : Driver W) where
  -- The error of Mount is not looked at.
  unfoldable pub ensure_bound : NodePublishRequest → Action W (Unit {0})
  ensure_bound req = do
    mounted ← d.disk_hot_plugger.is_mounted req.target_path
    if mounted
        then pure tt
        else ignore_error (
            d.disk_hot_plugger.mount req.staging_target_path req.target_path "ext4"
              (bind_options req.readonly))

  unfoldable pub node_publish_volume : NodePublishRequest → Action W (Unit {0})
  node_publish_volume req = do
    raise_if (req.volume_id == "") (invalid "must provide a VolumeId to NodePublishVolume")
    raise_if (req.staging_target_path == "")
        (invalid "must provide a StagingTargetPath to NodePublishVolume")
    raise_if (req.target_path == "") (invalid "must provide a TargetPath to NodePublishVolume")
    raise_if (is_nil req.volume_capability)
        (invalid "must provide a VolumeCapability to NodePublishVolume")
    call (host.mkdir_all req.target_path)
    ensure_bound req

  abbrev cannot_remove : String → Error → Error
  cannot_remove path e =
      status internal "failed to remove target path %q: %s" (text_arg path (error_arg e end))

  -- The target is no mount point: what is there goes.
  unfoldable pub clear_target : String → Action W (Unit {0})
  clear_target path = call_or (λ e. cannot_remove path (external e)) (host.remove_all path)

  -- The target is a mount point: it is unmounted and removed, unless it is gone by then.
  unfoldable pub release_target : String → Action W (Unit {0})
  release_target path = do
    d.disk_hot_plugger.unmount path
    removed ← try (host.remove path)
    elim removed [
      | reply _ ↦ pure tt
      | failed e ↦
          if is_not_exist (external e) then pure tt else raise (cannot_remove path (external e))
    ]

  unfoldable pub node_unpublish_volume : NodeUnpublishRequest → Action W (Unit {0})
  node_unpublish_volume req = do
    raise_if (req.volume_id == "") (invalid "must provide a VolumeId to NodeUnpublishVolume")
    raise_if (req.target_path == "") (invalid "must provide a TargetPath to NodeUnpublishVolume")
    answer ← attempt (d.disk_hot_plugger.is_mounted req.target_path)
    elim answer [
      | inl mounted ↦
          if mounted then release_target req.target_path else clear_target req.target_path
      | inr e ↦
          if is_not_exist e
          then pure tt
          else if is_corrupted_mnt e
          then release_target req.target_path
          else raise e
    ]
