-- ===== src/Driver.antt =====
-- pkg/driver/driver.go: the driver's state and constants.
pub mod New
pub mod Serve
pub mod Testing
use civo_csi.Base.{String, Bool}
use civo_csi.Base.Int.{ℤ, pos}
use civo_csi.Action.{Action}
use civo_csi.Api.{Clienter, Logged, recorded}
use civo_csi.Csi.{CsiVolume}
use civo_csi.Disk.{DiskHotPlugger}

-- `singleflight.Group`: `do_call key fn` answers the value and whether it was shared.
pub record Group (W : Type 0) : Type 0 where
  pub do_call : String → Action W CsiVolume → Action W (CsiVolume × Bool)

-- The struct `Driver`, less the gRPC server
pub record Driver (W : Type 0) : Type 0 where
  pub civo_client : Clienter W
  pub disk_hot_plugger : DiskHotPlugger W
  pub controller : Bool
  pub socket_filename : String
  pub region : String
  pub namespace : String
  pub cluster_id : String
  pub test_mode : Bool
  pub cluster_volume_type : String
  pub volume_create_group : Group W

abbrev pub default_volume_size_gb : ℤ
default_volume_size_gb = pos 10

-- `Version`
abbrev pub version : String
version = "0.0.1"

-- The driver over a recorded client
abbrev pub watched : {W : Type 0} → Clienter W → Driver (Logged W) → Driver (Logged W)
watched c d = record d { civo_client = recorded c }
