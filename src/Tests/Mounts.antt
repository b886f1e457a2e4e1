-- ===== src/Tests/Mounts.antt =====
-- The mounts of a node at concrete data, over the disk plugger that runs the commands of a table.
use mathlib.Core.Path.{subst}
use civo_csi.Action.{ok}
use civo_csi.Base.{
  ◌==◌, if◌then◌else◌, arith, ◌<◌, String, ◌≡◌, refl, false, [], ◌∷◌, some, string_dec,
}
use civo_csi.Csi.{
  StageRequest, NodePublishRequest, PathRequest, VolumeCapability, single_node_writer, mount,
}
use civo_csi.Disk.Contract.{Mounts, KeepsMounts}
use civo_csi.Disk.Real.{real_disk, statistics, get_statistics, is_mounted, require_command}
use civo_csi.Disk.Real.Manual.{all_plain}
use civo_csi.Disk.Real.Contract.{real_disk-KeepsMounts}
use civo_csi.Node.Mounts.{stage, publish, replay, run_node}
use civo_csi.Node.Mounts.Runs.{run_node_refines}
use civo_csi.Node.Mounts.Lifecycle.{IsFresh, node_lifecycle, unstage_of, unpublish_of}
use civo_csi.Node.Info.{node_get_volume_stats, usage}
use civo_csi.Node.Info.Usage.{IsConsistent, AddUp, node_stats-AddUp}
use civo_csi.Tests.Memory.{quiet_host, ne_of}
use civo_csi.Tests.Table.{
  table-FindmntRuns, filesystem, table, table_driver, table-KeepsMountTable, table-Works, device,
}

abbrev writer : VolumeCapability
writer = record { access_mode = some single_node_writer; access_type = mount [] }

abbrev stages : StageRequest
stages = record {
  volume_id = "id-1";
  staging_target_path = "/stage";
  volume_capability = some writer;
}

abbrev publishes : NodePublishRequest
publishes = record {
  volume_id = "id-1";
  staging_target_path = "/stage";
  target_path = "/target";
  volume_capability = some writer;
  readonly = false;
}

abbrev nothing_mounted : Mounts
nothing_mounted u = 0

real_disk-KeepsMounts_example : KeepsMounts all_plain (real_disk table) (λ w. w)
real_disk-KeepsMounts_example =
    real_disk-KeepsMounts table (λ w. w) table-KeepsMountTable table-FindmntRuns

keeps : KeepsMounts all_plain table_driver.disk_hot_plugger (λ w. w)
keeps = real_disk-KeepsMounts table (λ w. w) table-KeepsMountTable table-FindmntRuns

fresh : IsFresh device stages publishes nothing_mounted
unfolding string_dec
fresh = record {
  stageable = refl;
  publishable = refl;
  apart = ne_of "/target" "/stage" refl;
  device_free = refl;
  staging_free = refl;
  target_free = refl;
}

run_node_refines_example :
    run_node quiet_host table_driver (stage stages ∷ publish publishes ∷ []) nothing_mounted
    ≡ replay device (stage stages ∷ publish publishes ∷ []) nothing_mounted
run_node_refines_example =
    run_node_refines quiet_host table_driver (λ w. w) device all_plain keeps table-Works
      (stage stages ∷ publish publishes ∷ []) nothing_mounted refl

node_lifecycle_example :
    let up =
      run_node quiet_host table_driver (stage stages ∷ publish publishes ∷ []) nothing_mounted in
    (up "/stage" ≡ 1)
    × (up "/target" ≡ 1)
    × ((u : String)
        → run_node quiet_host table_driver (unpublish_of publishes ∷ unstage_of stages ∷ []) up u
          ≡ 0)
node_lifecycle_example =
    node_lifecycle quiet_host table_driver (λ w. w) device all_plain keeps table-Works stages
      publishes nothing_mounted fresh refl

abbrev target_mounted : Mounts
target_mounted u = if u == "/target" then 1 else 0

abbrev asks : PathRequest
asks = record { volume_id = "id-1"; volume_path = "/target" }

filesystem-IsConsistent : IsConsistent filesystem
filesystem-IsConsistent = record {
  block_size = 4096;
  is_block_size = refl;
  blocks_fit = omega arith;
  bytes_fit = omega arith;
  available_free = omega arith;
  free_there = omega arith;
  inodes_fit = omega arith;
  inodes_free = omega arith;
}

answers :
    (node_get_volume_stats
      (record table_driver { disk_hot_plugger = real_disk table })
      asks
      target_mounted).0
    ≡ ok (usage (statistics filesystem))
unfolding node_get_volume_stats get_statistics is_mounted require_command string_dec
answers = refl

node_stats-AddUp_example : (0 < target_mounted "/target") × AddUp (usage (statistics filesystem))
node_stats-AddUp_example =
    node_stats-AddUp table (λ w. w) table-KeepsMountTable table_driver asks target_mounted
      (usage (statistics filesystem))
      (λ x s e. subst IsConsistent (ground (arith, e)) filesystem-IsConsistent) answers
