-- ===== src/Controller/Query.antt =====
-- The operations that read: `ListVolumes`, `GetCapacity`, `ValidateVolumeCapabilities`,
-- `ControllerGetCapabilities`; and those that are not implemented yet.
pub mod Quota
pub mod Modes
pub mod Listing
use civo_csi.Base.{
  String, ◌==◌, true, false, Bool, not, List, [], ◌∷◌, map, any, Option, none, some, if◌then◌else◌,
}
use civo_csi.Base.Int.{ℤ, pos, leb_ℤ}
use civo_csi.Base.Int64.{sub, mul}
use civo_csi.Action.{
  Action, external, status, text_arg, error_arg, value_arg, end, invalid_argument, aborted,
  not_found, unimplemented, ◌>>=◌, ◌>>◌, pure, raise, raise_if, call, call_or,
}
use civo_csi.Api.{Volume}
use civo_csi.Csi.{
  VolumeCapability, mode_of, ValidateRequest, ListSnapshotsRequest, CsiVolume, ControllerCapability,
  create_delete_volume, publish_unpublish_volume, list_volumes, get_capacity, expand_volume,
}
use civo_csi.Driver.{Driver}
use civo_csi.Controller.Size.{bytes_in_gigabyte, capacity_of}
use civo_csi.Controller.Create.{invalid, supported_access_mode, capabilities, volume_response}
use civo_csi.Controller.Publish.{is_nil}

module _ {W : Type 0} (d : Driver W) where
  unfoldable pub list_all : String → Action W (List CsiVolume)
  list_all starting_token = do
    raise_if (not (starting_token == ""))
        (status aborted "%v not supported" (text_arg "starting-token" end))
    volumes ← call d.civo_client.list_volumes
    pure (map (λ (v : Volume). volume_response v.id v.size_gigabytes) volumes)

  unfoldable pub available_capacity : Action W ℤ
  available_capacity = do
    quota ← call d.civo_client.get_quota
    if leb_ℤ quota.disk_volume_count_limit quota.disk_volume_count_usage
        then pure (pos 0)
        else pure
            (mul (sub quota.disk_gigabytes_limit quota.disk_gigabytes_usage) bytes_in_gigabyte)

  unfoldable pub validate_volume_capabilities : ValidateRequest → Action W (List VolumeCapability)
  validate_volume_capabilities req = do
    raise_if (req.volume_id == "") (invalid "must provide a VolumeId to ValidateVolumeCapabilities")
    raise_if (is_nil req.volume_capabilities)
        (invalid "must provide VolumeCapabilities to ValidateVolumeCapabilities")
    call_or
        (λ e.
          status not_found "Unable to fetch volume from Civo API: %s" (error_arg (external e) end))
        (d.civo_client.get_volume req.volume_id)
    let caps = capabilities req.volume_capabilities
    raise_if (not (any (λ c. supported_access_mode (mode_of c)) caps))
        (status not_found "%v not supported" (value_arg end))
    pure caps

abbrev pub controller_capabilities : List ControllerCapability
controller_capabilities =
    create_delete_volume ∷ publish_unpublish_volume ∷ list_volumes ∷ get_capacity ∷ expand_volume
    ∷ []

-- `ControllerGetVolume` and `CreateSnapshot`
unfoldable pub controller_get_volume : {W : Type 0} → Action W (Unit {0})
controller_get_volume = raise (status unimplemented "" end)

unfoldable pub create_snapshot : {W : Type 0} → Action W (Unit {0})
create_snapshot = raise (status unimplemented "" end)

unfoldable pub delete_snapshot : {W : Type 0} → String → Action W (Unit {0})
delete_snapshot snapshot_id = do
  raise_if (snapshot_id == "") (invalid "must provide SnapshotId to DeleteSnapshot")
  raise (status unimplemented "" end)

-- The ids that select snapshots are only logged.
unfoldable pub list_snapshots_all : {W : Type 0} → ListSnapshotsRequest → Action W (Unit {0})
list_snapshots_all req = do
  raise_if (not (req.starting_token == "")) (status aborted "starting-token not supported" end)
  raise (status unimplemented "" end)
