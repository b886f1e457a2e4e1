-- ===== src/Tests/Attach.antt =====
-- ControllerPublishVolume and ControllerUnpublishVolume at concrete data.
use civo_csi.Base.{String, ◌≡◌, refl, some, [], ◌∷◌, string_dec}
use civo_csi.Base.Int.{pos}
use civo_csi.Action.{ok, reply}
use civo_csi.Api.{Volume, Logged, writes, attached, detached, recorded}
use civo_csi.Host.{recorded_host}
use civo_csi.Driver.{Driver, watched}
use civo_csi.Csi.{PublishRequest, UnpublishRequest, single_node_writer, mount}
use civo_csi.Controller.Publish.{
  attach_config, attach_found, confirm_attached, controller_publish_volume,
}
use civo_csi.Controller.Publish.Calls.{publish_writes}
use civo_csi.Controller.Unpublish.{controller_unpublish_volume, detach_found, confirm_available}
use civo_csi.Controller.Unpublish.Calls.{unpublish_writes}
use civo_csi.Tests.Memory.{Cloud, memory, quiet_host, driver, cluster, ne_of}

abbrev on : String → String → Volume
on node status = record {
  id = "id-1";
  name = "pvc-1";
  instance_id = node;
  size_gigabytes = pos 7;
  status = status;
}

abbrev publishes : String → PublishRequest
publishes node = record {
  volume_id = "id-1";
  node_id = node;
  volume_capability =
      some (record { access_mode = some single_node_writer; access_type = mount [] });
}

abbrev unpublishes : String → UnpublishRequest
unpublishes node = record { volume_id = "id-1"; node_id = node }

abbrev logged_driver : Driver (Logged Cloud)
logged_driver = driver (recorded memory)

abbrev publish : String → Cloud → Logged Cloud
publish node w =
    (controller_publish_volume (recorded_host quiet_host) (watched memory logged_driver)
      (publishes node) (w, [])).1

abbrev unpublish : String → Cloud → Logged Cloud
unpublish node w =
    (controller_unpublish_volume (recorded_host quiet_host) (watched memory logged_driver)
      (unpublishes node) (w, [])).1

-- A volume that is attaching to the node is attached again.
attaches_again :
    writes (publish "node-1" (on "node-1" "attaching" ∷ [])).1
    ≡ attached "id-1" (attach_config logged_driver "node-1") (reply tt) ∷ []
unfolding controller_publish_volume attach_found confirm_attached string_dec
attaches_again = refl

publish_ok :
    (controller_publish_volume
      (recorded_host quiet_host)
      (watched memory logged_driver)
      (publishes "node-1")
      (on "" "available" ∷ [], [])).0
    ≡ ok tt
unfolding controller_publish_volume attach_found confirm_attached string_dec
publish_ok = refl

unpublish_ok :
    (controller_unpublish_volume
      (recorded_host quiet_host)
      (watched memory logged_driver)
      (unpublishes "node-1")
      (on "node-1" "attached" ∷ [], [])).0
    ≡ ok tt
unfolding controller_unpublish_volume detach_found confirm_available string_dec
unpublish_ok = refl

publish_writes_example :
    writes (publish "node-1" (on "" "available" ∷ [])).1
    ≡ attached "id-1" (attach_config logged_driver "node-1") (reply tt) ∷ []
unfolding string_dec
publish_writes_example =
    publish_writes quiet_host memory logged_driver (publishes "node-1") cluster (on "" "available")
      (on "" "available" ∷ []) refl refl refl refl

unpublish_writes_example :
    writes (unpublish "node-1" (on "node-1" "attached" ∷ [])).1 ≡ detached "id-1" (reply tt) ∷ []
unfolding string_dec
unpublish_writes_example =
    unpublish_writes quiet_host memory logged_driver (unpublishes "node-1") (on "node-1" "attached")
      (on "node-1" "attached" ∷ []) (ne_of "id-1" "" refl) refl
