-- ===== src/Api/Types.antt =====
-- The data of `civogo` that the driver reads, and the client interface.
use civo_csi.Base.{String, List}
use civo_csi.Base.Int.{ℤ}
use civo_csi.Action.{Reply}

-- civogo.Volume
pub record Volume : Type 0 where
  pub id : String
  pub name : String
  pub instance_id : String
  pub size_gigabytes : ℤ
  pub status : String

-- civogo.VolumeConfig
pub record VolumeConfig : Type 0 where
  pub name : String
  pub region : String
  pub namespace : String
  pub cluster_id : String
  pub size_gigabytes : ℤ
  pub volume_type : String

-- civogo.VolumeAttachConfig
pub record VolumeAttachConfig : Type 0 where
  pub instance_id : String
  pub region : String

-- civogo.Quota
pub record Quota : Type 0 where
  pub disk_gigabytes_limit : ℤ
  pub disk_gigabytes_usage : ℤ
  pub disk_volume_count_limit : ℤ
  pub disk_volume_count_usage : ℤ

-- civogo.KubernetesInstance
pub record Instance : Type 0 where
  pub id : String
  pub region : String

-- civogo.KubernetesCluster
pub record Cluster : Type 0 where
  pub instances : List Instance
  pub volume_type : String

-- The methods of `civogo.Clienter` that the driver calls. `new_volume` answers the id of
-- `civogo.VolumeResult`. A failed call gives a nil pointer.
pub record Clienter (W : Type 0) : Type 0 where
  pub list_volumes : W → Reply (List Volume) × W
  pub get_volume : String → W → Reply Volume × W
  pub new_volume : VolumeConfig → W → Reply String × W
  pub delete_volume : String → W → Reply (Unit {0}) × W
  pub attach_volume : String → VolumeAttachConfig → W → Reply (Unit {0}) × W
  pub detach_volume : String → W → Reply (Unit {0}) × W
  pub resize_volume : String → ℤ → W → Reply (Unit {0}) × W
  pub get_quota : W → Reply Quota × W
  pub get_kubernetes_cluster : String → W → Reply Cluster × W
  pub find_kubernetes_cluster_instance : String → String → W → Reply Instance × W
  pub ping : W → Reply (Unit {0}) × W
