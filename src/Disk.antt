-- ===== src/Disk.antt =====
-- pkg/driver/hotplug_disk.go: the interface `DiskHotPlugger` over a world of any type.
pub mod Fake
pub mod Commands
pub mod Contract
pub mod Real
pub mod Recorded
use civo_csi.Base.{String, Bool, List}
use civo_csi.Base.Int.{ℤ}
use civo_csi.Action.{Action}

pub record VolumeStatistics : Type 0 where
  pub available_bytes : ℤ
  pub total_bytes : ℤ
  pub used_bytes : ℤ
  pub available_inodes : ℤ
  pub total_inodes : ℤ
  pub used_inodes : ℤ

pub record DiskHotPlugger (W : Type 0) : Type 0 where
  pub path_for_volume : String → W → String × W
  pub format : String → String → Action W (Unit {0})
  pub expand_filesystem : String → Action W (Unit {0})
  pub mount : String → String → String → List String → Action W (Unit {0})
  pub unmount : String → Action W (Unit {0})
  pub is_formatted : String → Action W Bool
  pub is_mounted : String → Action W Bool
  pub get_statistics : String → Action W VolumeStatistics
