-- ===== src/Controller/Delete.antt =====
-- `DeleteVolume`
pub mod Frees
use civo_csi.Base.{String, ◌==◌, contains, if◌then◌else◌}
use civo_csi.Action.{Action, external, reply, failed, ◌>>=◌, ◌>>◌, pure, raise, raise_if, try}
use civo_csi.Driver.{Driver}
use civo_csi.Controller.Create.{invalid}

module _ {W : Type 0} (d : Driver W) where
  unfoldable pub delete_volume : String → Action W (Unit {0})
  unfolding contains
  delete_volume volume_id = do
    raise_if (volume_id == "") (invalid "must provide a VolumeId to DeleteVolume")
    r ← try (d.civo_client.delete_volume volume_id)
    elim r [
      | reply _ ↦ pure tt
      | failed e ↦
          if contains e.text "DatabaseVolumeNotFoundError" then pure tt else raise (external e)
    ]
