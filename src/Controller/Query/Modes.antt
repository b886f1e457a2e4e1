-- ===== src/Controller/Query/Modes.antt =====
-- `ValidateVolumeCapabilities` against the checks of `CreateVolume`.
use civo_csi.Base.{◌≡◌, ◌≢◌, some, List, arith, Bool, true, false, any, if◌then◌else◌}
use civo_csi.Action.{ok, reply, err, status, value_arg, end, code_of, not_found, invalid_argument}
use civo_csi.Api.{Volume}
use civo_csi.Host.{Host}
use civo_csi.Driver.{Driver}
use civo_csi.Csi.{VolumeCapability, ValidateRequest, CreateVolumeRequest, mode_of}
use civo_csi.Controller.Create.{supported_access_mode, create_volume}
use civo_csi.Controller.Create.Requests.{all_acceptable, create_volume-rejects}
use civo_csi.Controller.Query.{validate_volume_capabilities}

abbrev pub is_supported : VolumeCapability → Bool
is_supported c = supported_access_mode (mode_of c)

module _ {W : Type 0} (host : Host W) (d : Driver W) where
  -- For a volume that is found, ValidateVolumeCapabilities confirms all the capabilities if any of
  -- them has a supported mode, and fails with NotFound otherwise.
  validate_any :
      (req : ValidateRequest) (caps : List VolumeCapability) (v : Volume) (w : W)
      → req.volume_id ≢ ""
      → req.volume_capabilities ≡ some caps
      → (d.civo_client.get_volume req.volume_id w).0 ≡ reply v
      → (validate_volume_capabilities d req w).0 ≡ (
          if any is_supported caps
          then ok caps
          else err (status not_found "%v not supported" (value_arg end)))
  unfolding validate_volume_capabilities
  validate_any req caps v w named ec ev = ground arith

  -- For capabilities of which one has a supported mode and one is not acceptable to CreateVolume,
  -- ValidateVolumeCapabilities confirms all of them for a volume that is found, while CreateVolume
  -- refuses a request with them.
  pub validate_beyond_create :
      (req : ValidateRequest) (new : CreateVolumeRequest) (caps : List VolumeCapability)
      (v : Volume) (w w' : W)
      → req.volume_id ≢ ""
      → req.volume_capabilities ≡ some caps
      → new.volume_capabilities ≡ some caps
      → (d.civo_client.get_volume req.volume_id w).0 ≡ reply v
      → any is_supported caps ≡ true
      → all_acceptable caps ≡ false
      → ((validate_volume_capabilities d req w).0 ≡ ok caps)
        × (code_of (create_volume host d new w').0 ≡ some invalid_argument)
  validate_beyond_create req new caps v w w' named ec en ev one other = (
    rw one at (validate_any req caps v w named ec ev),
    (create_volume-rejects host d new w' (ground arith)).0,
  )
