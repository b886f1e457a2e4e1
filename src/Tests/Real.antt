-- ===== src/Tests/Real.antt =====
-- The node service with the real disk plugger at concrete data, and what it does not see.
use civo_csi.Base.{◌≡◌, ◌≢◌, refl, false, none, some, [], ◌∷◌, string_dec}
use civo_csi.Base.Int.{pos}
use civo_csi.Action.{ok, errorf, end, reply}
use civo_csi.Api.{Volume}
use civo_csi.Csi.{
  StageRequest, NodePublishRequest, PathRequest, VolumeCapability, single_node_writer, mount,
}
use civo_csi.Disk.Contract.{Mounts}
use civo_csi.Disk.Real.{path_for_volume, is_formatted, expand_filesystem, require_command}
use civo_csi.Driver.{Driver}
use civo_csi.Node.Stage.{node_stage_volume}
use civo_csi.Node.Publish.{node_publish_volume}
use civo_csi.Node.Info.{node_expand_volume}
use civo_csi.Node.Blind.{with_errors, stage_blind}
use civo_csi.Node.Real.{on_system, node_expands}
use civo_csi.Tests.Memory.{quiet_host}
use civo_csi.Tests.Table.{table, table_driver, device}

abbrev writer : VolumeCapability
writer = record { access_mode = some single_node_writer; access_type = mount [] }

abbrev stages : StageRequest
stages = record {
  volume_id = "id-1";
  staging_target_path = "/stage";
  volume_capability = some writer;
}

abbrev publishes : NodePublishRequest
publishes = record {
  volume_id = "id-1";
  staging_target_path = "/stage";
  target_path = "/target";
  volume_capability = some writer;
  readonly = false;
}

abbrev nothing_mounted : Mounts
nothing_mounted u = 0

stage_blind_example :
    (node_stage_volume
        (with_errors quiet_host table_driver (errorf "no mount" end))
        stages
        nothing_mounted
      ≡ node_stage_volume table_driver stages nothing_mounted)
    × (node_publish_volume quiet_host
          (with_errors quiet_host table_driver (errorf "no mount" end))
          publishes
          nothing_mounted
        ≡ node_publish_volume quiet_host table_driver publishes nothing_mounted)
stage_blind_example =
    stage_blind quiet_host table_driver (errorf "no mount" end) stages publishes nothing_mounted

-- An API that knows one volume
abbrev knowing_driver : Driver Mounts
knowing_driver = record table_driver {
  civo_client = record (table_driver.civo_client) {
    get_volume = λ id w. (
      reply (record {
        id = id;
        name = "pvc-1";
        instance_id = "node-1";
        size_gigabytes = pos 5;
        status = "attached";
      }),
      w,
    );
  };
}

abbrev expands : PathRequest
expands = record { volume_id = "id-1"; volume_path = "/stage" }

expanded : (node_expand_volume (on_system table knowing_driver) expands nothing_mounted).0 ≡ ok tt
unfolding node_expand_volume path_for_volume is_formatted expand_filesystem require_command
    string_dec
expanded = refl

node_expands_example :
    ((v : Volume) × ((knowing_driver.civo_client.get_volume "id-1" nothing_mounted).0 ≡ reply v))
    × (device "id-1" ≢ "")
    × ((table.run "blkid" (device "id-1" ∷ []) nothing_mounted).0.error ≡ none)
    × ((table.run "/usr/sbin/resize2fs" (device "id-1" ∷ []) nothing_mounted).0.error ≡ none)
    × ((node_expand_volume (on_system table knowing_driver) expands nothing_mounted).1
        ≡ nothing_mounted)
unfolding path_for_volume string_dec
node_expands_example = node_expands table knowing_driver expands nothing_mounted expanded
