-- ===== src/Csi.antt =====
-- The requests and responses of the Container Storage Interface, as far as the driver reads or
-- fills them. A nil message is `none`.
use civo_csi.Base.{String, Bool, List, Option, none, some}
use civo_csi.Base.Int.{ℤ}

-- csi.VolumeCapability_AccessMode_Mode
pub data AccessMode : Type 0 where
  unknown single_node_writer single_node_reader_only multi_node_reader_only : AccessMode
  multi_node_single_writer multi_node_multi_writer : AccessMode
  single_node_single_writer single_node_multi_writer : AccessMode

-- The oneof `access_type`: a raw block device, or a mount with its flags.
pub data AccessType : Type 0 where
  block : AccessType
  mount : List String → AccessType
  unset : AccessType

pub record VolumeCapability : Type 0 where
  pub access_mode : Option AccessMode
  pub access_type : AccessType

-- `cap.GetAccessMode().GetMode()`, which answers UNKNOWN for a nil message
abbrev pub mode_of : VolumeCapability → AccessMode
mode_of c = elim c.access_mode [ none ↦ unknown | some m ↦ m ]

pub record CapacityRange : Type 0 where
  pub required_bytes : ℤ
  pub limit_bytes : ℤ

pub record CreateVolumeRequest : Type 0 where
  pub name : String
  pub volume_capabilities : Option (List VolumeCapability)
  pub capacity_range : Option CapacityRange

-- csi.Volume
pub record CsiVolume : Type 0 where
  pub volume_id : String
  pub capacity_bytes : ℤ

pub record PublishRequest : Type 0 where
  pub volume_id : String
  pub node_id : String
  pub volume_capability : Option VolumeCapability

pub record UnpublishRequest : Type 0 where
  pub volume_id : String
  pub node_id : String

pub record ExpandRequest : Type 0 where
  pub volume_id : String
  pub capacity_range : Option CapacityRange

pub record ExpandResponse : Type 0 where
  pub capacity_bytes : ℤ
  pub node_expansion_required : Bool

pub record ValidateRequest : Type 0 where
  pub volume_id : String
  pub volume_capabilities : Option (List VolumeCapability)

pub record ListSnapshotsRequest : Type 0 where
  pub snapshot_id : String
  pub source_volume_id : String
  pub starting_token : String

pub record StageRequest : Type 0 where
  pub volume_id : String
  pub staging_target_path : String
  pub volume_capability : Option VolumeCapability

pub record UnstageRequest : Type 0 where
  pub volume_id : String
  pub staging_target_path : String

pub record NodePublishRequest : Type 0 where
  pub volume_id : String
  pub staging_target_path : String
  pub target_path : String
  pub volume_capability : Option VolumeCapability
  pub readonly : Bool

pub record NodeUnpublishRequest : Type 0 where
  pub volume_id : String
  pub target_path : String

-- The requests of NodeGetVolumeStats and NodeExpandVolume
pub record PathRequest : Type 0 where
  pub volume_id : String
  pub volume_path : String

-- The topology's only segment is the region.
pub record NodeInfo : Type 0 where
  pub node_id : String
  pub max_volumes_per_node : ℤ
  pub region : String

pub data UsageUnit : Type 0 where
  bytes inodes : UsageUnit

pub record VolumeUsage : Type 0 where
  pub available : ℤ
  pub total : ℤ
  pub used : ℤ
  pub unit : UsageUnit

-- csi.ControllerServiceCapability_RPC_Type
pub data ControllerCapability : Type 0 where
  create_delete_volume publish_unpublish_volume list_volumes get_capacity : ControllerCapability
  expand_volume create_delete_snapshot list_snapshots : ControllerCapability

-- csi.NodeServiceCapability_RPC_Type
pub data NodeCapability : Type 0 where
  stage_unstage_volume expand_volume get_volume_stats volume_condition : NodeCapability

-- csi.PluginCapability
pub data PluginCapability : Type 0 where
  controller_service offline_volume_expansion : PluginCapability
