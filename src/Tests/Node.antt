-- ===== src/Tests/Node.antt =====
-- The node service at concrete data.
use civo_csi.Base.{
  ◌≡◌, ◌≢◌, refl, true, false, some, [], ◌∷◌, arith, string_dec, if◌then◌else◌, ◌==◌,
}
use civo_csi.Base.Int.{pos}
use civo_csi.Action.{ok, err, errorf, end, reply, failed}
use civo_csi.Api.{Volume}
use civo_csi.Host.{Host}
use civo_csi.Driver.{Driver}
use civo_csi.Csi.{
  PathRequest, StageRequest, NodePublishRequest, NodeUnpublishRequest, VolumeCapability,
  single_node_writer, mount,
}
use civo_csi.Disk.{DiskHotPlugger}
use civo_csi.Disk.Fake.{FakeDisk, fake_disk}
use civo_csi.Disk.Recorded.{formatting, recorded_disk}
use civo_csi.Node.Stage.{node_stage_volume}
use civo_csi.Node.Stage.Calls.{stage_formats, formats, on_disk}
use civo_csi.Node.Publish.{node_unpublish_volume}
use civo_csi.Node.Publish.Targets.{unpublish_keeps_data}
use civo_csi.Tests.Memory.{node_driver, Cloud, quiet_host, ne_of, not_found_error}

abbrev known_volume : Volume
known_volume = record {
  id = "id-1";
  name = "pvc-1";
  instance_id = "node-1";
  size_gigabytes = pos 5;
  status = "attached";
}

abbrev fresh_disk : FakeDisk
fresh_disk = record {
  disk_attachment_missing = false;
  filesystem = "";
  formatted = false;
  format_called = false;
  expand_called = false;
  device = "";
  mountpoint = "";
  mounted = false;
  mount_called = false;
}

abbrev writer : VolumeCapability
writer = record { access_mode = some single_node_writer; access_type = mount [] }

abbrev stages : StageRequest
stages = record {
  volume_id = "id-1";
  staging_target_path = "/stage";
  volume_capability = some writer;
}

abbrev publishes : NodePublishRequest
publishes = record {
  volume_id = "id-1";
  staging_target_path = "/stage";
  target_path = "/target";
  volume_capability = some writer;
  readonly = false;
}

abbrev unpublishes : NodeUnpublishRequest
unpublishes = record { volume_id = "id-1"; target_path = "/target" }

stage_formats_example :
    formats
      (node_stage_volume
        (on_disk fake_disk (node_driver (recorded_disk fake_disk)))
        stages
        (fresh_disk, [])).1.1
    ≡ formatting "/fake-dev/disk/by-id/id-1" "ext4" ∷ []
unfolding string_dec
stage_formats_example =
    stage_formats fake_disk (node_driver (recorded_disk fake_disk)) stages fresh_disk refl
      (ne_of "/fake-dev/disk/by-id/id-1" "" refl)

-- A disk whose mounts fail
abbrev no_mount : DiskHotPlugger FakeDisk
no_mount = record fake_disk { mount = λ path target fs flags p. (err (errorf "no mount" end), p) }

abbrev mounted_disk : FakeDisk
mounted_disk = record fresh_disk { mounted = true; mountpoint = "/target" }

ok_true_ne : ok true ≢ ok false
ok_true_ne = λ e. ground arith

unpublish_keeps_data_example :
    node_unpublish_volume
      (record quiet_host { remove_all = λ path w. (failed not_found_error, w) })
      (node_driver fake_disk)
      unpublishes
      mounted_disk
    ≡ node_unpublish_volume quiet_host (node_driver fake_disk) unpublishes mounted_disk
unfolding string_dec
unpublish_keeps_data_example =
    unpublish_keeps_data quiet_host (node_driver fake_disk) unpublishes
      (λ path w. (failed not_found_error, w)) mounted_disk ok_true_ne

abbrev formatted_disk : FakeDisk
formatted_disk = record fresh_disk { formatted = true }

-- An API that knows one volume, over any world
abbrev knowing_driver : {W : Type 0} → DiskHotPlugger W → Driver W
knowing_driver p = record (node_driver p) {
  civo_client = record ((node_driver p).civo_client) {
    get_volume = λ id w. (reply known_volume, w);
  };
}

abbrev expands : PathRequest
expands = record { volume_id = "id-1"; volume_path = "/stage" }

-- A host on which NODE_ID is set
abbrev node_host : Host Cloud
node_host = record quiet_host { getenv = λ name w. if name == "NODE_ID" then "node-1" else "LON1" }
