-- ===== src/Controller/Unpublish.antt =====
-- `ControllerUnpublishVolume`
pub mod Calls
use civo_csi.Base.{String, ◌==◌, Bool, not, ◌||◌, contains, if◌then◌else◌}
use civo_csi.Action.{
  Action, ExternalError, external, status, text_arg, end, unavailable, reply, failed, ◌>>=◌, ◌>>◌,
  pure, raise, raise_if, call, try, effect,
}
use civo_csi.Api.{Volume}
use civo_csi.Csi.{UnpublishRequest}
use civo_csi.Host.{Host}
use civo_csi.Driver.{Driver}
use civo_csi.Controller.Create.{invalid}

-- The errors of GetVolume that are read as "already deleted"
unfoldable pub says_volume_gone : ExternalError → Bool
unfolding contains
says_volume_gone e =
    contains e.text "DatabaseVolumeNotFoundError" || contains e.text "ZeroMatchesError"

module _ {W : Type 0} (d : Driver W) where
  unfoldable pub request_detach : UnpublishRequest → Volume → Action W (Unit {0})
  request_detach req volume =
      if volume.status == "detaching"
      then pure tt
      else call (d.civo_client.detach_volume req.volume_id)

  unfoldable pub confirm_available : UnpublishRequest → Action W (Unit {0})
  confirm_available req = do
    volume ← call (d.civo_client.get_volume req.volume_id)
    if volume.status == "available"
        then pure tt
        else raise (
            status unavailable
              "Civo Volume %q did not go back to \"available\", state is currently %q"
              (text_arg req.volume_id (text_arg volume.status end)))

module _ {W : Type 0} (host : Host W) (d : Driver W) where
  unfoldable pub detach_found : UnpublishRequest → Volume → Action W (Unit {0})
  unfolding request_detach confirm_available
  detach_found req volume =
      if volume.status == "available"
      then pure tt
      else if not (volume.instance_id == req.node_id)
      then pure tt
      else (do request_detach d req volume; effect (host.sleep 5); confirm_available d req)

  unfoldable pub controller_unpublish_volume : UnpublishRequest → Action W (Unit {0})
  unfolding detach_found says_volume_gone
  controller_unpublish_volume req = do
    raise_if (req.volume_id == "") (invalid "must provide a VolumeId to ControllerUnpublishVolume")
    r ← try (d.civo_client.get_volume req.volume_id)
    elim r [
      | reply volume ↦ detach_found req volume
      | failed e ↦ if says_volume_gone e then pure tt else raise (external e)
    ]
