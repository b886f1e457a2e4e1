-- ===== src/Controller/Expand.antt =====
-- `ControllerExpandVolume`
pub mod Calls
pub mod Sizes
pub mod Grows
use civo_csi.Base.{String, ◌==◌, ◌*◌, true, Bool, not, Option, none, some, if◌then◌else◌}
use civo_csi.Base.Int.{ℤ, leb_ℤ}
use civo_csi.Action.{
  Action, Outcome, panic, ExternalError, external, status, text_arg, error_arg, end, internal,
  aborted, failed_precondition, reply, failed, ◌>>=◌, ◌>>◌, pure, raise, raise_if, call, call_or,
  try,
}
use civo_csi.Api.{Volume}
use civo_csi.Csi.{ExpandRequest, ExpandResponse}
use civo_csi.Host.{Host}
use civo_csi.Driver.{Driver}
use civo_csi.Controller.Size.{get_vol_size_in_bytes, desired_gigabytes, capacity_of}
use civo_csi.Controller.Wait.{wait_for_volume_status}
use civo_csi.Controller.Create.{invalid, civo_volume_available_retries}
use civo_csi.Controller.Publish.{is_nil}

abbrev pub expand_response : ℤ → ExpandResponse
expand_response size = record { capacity_bytes = capacity_of size; node_expansion_required = true }

module _ {W : Type 0} (d : Driver W) where
  -- `volume, _ = d.CivoClient.GetVolume(volID)`: the error is dropped, and the size of a nil volume
  -- is read.
  unfoldable pub read_resized : String → Action W ExpandResponse
  read_resized id = do
    r ← try (d.civo_client.get_volume id)
    elim r [
      | reply volume ↦ pure (expand_response volume.size_gigabytes)
      | failed _ ↦ λ w. (panic, w)
    ]

module _ {W : Type 0} (host : Host W) (d : Driver W) where
  -- The call of ResizeVolume and what follows it
  unfoldable pub resize : String → Volume → ℤ → Action W ExpandResponse
  unfolding read_resized
  resize id volume size = do
    call_or (λ e. status internal "cannot resize volume %s: %s" (text_arg id (text_arg e.text end)))
        (d.civo_client.resize_volume id size)
    available ← wait_for_volume_status host d volume "available" (civo_volume_available_retries * 2)
    raise_if (not available)
        (status internal "failed to wait for volume to be in an available state" end)
    read_resized d id

  unfoldable pub expand_found : String → Volume → ℤ → Action W ExpandResponse
  expand_found id volume size = do
    raise_if (volume.status == "resizing") (status aborted "volume is already being resized" end)
    if leb_ℤ size volume.size_gigabytes then pure (expand_response volume.size_gigabytes) else (do
      raise_if (not (volume.status == "available")) (
          status failed_precondition "volume is not in an availble state for OFFLINE expansion" end)
      resize id volume size)

  unfoldable pub controller_expand_volume : ExpandRequest → Action W ExpandResponse
  controller_expand_volume req = do
    raise_if (req.volume_id == "") (invalid "must provide a VolumeId to ControllerExpandVolume")
    volume ←
        call_or
          (λ e.
            status internal "ControllerExpandVolume could not retrieve existing volume: %v"
              (error_arg (external e) end))
          (d.civo_client.get_volume req.volume_id)
    raise_if (is_nil req.capacity_range)
        (invalid "must provide a capacity range to ControllerExpandVolume")
    let size = desired_gigabytes (get_vol_size_in_bytes req.capacity_range)
    expand_found req.volume_id volume size
