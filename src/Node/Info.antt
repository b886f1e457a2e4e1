-- ===== src/Node/Info.antt =====
-- `NodeGetInfo` with `currentNodeDetails`, `NodeGetVolumeStats`, `NodeExpandVolume`,
-- `NodeGetCapabilities`
pub mod Offline
pub mod Usage
use civo_csi.Base.{String, ◌==◌, not, List, [], ◌∷◌, inl, inr, if◌then◌else◌}
use civo_csi.Base.Int.{ℤ, pos}
use civo_csi.Action.{
  Action, Error, external, status, errorf, text_arg, error_arg, end, internal, not_found, reply,
  failed, ◌>>=◌, ◌>>◌, pure, raise, raise_if, read, call, call_or, try, attempt,
}
use civo_csi.Csi.{
  PathRequest, NodeInfo, VolumeUsage, bytes, inodes, NodeCapability, stage_unstage_volume,
  expand_volume, get_volume_stats,
}
use civo_csi.Disk.{VolumeStatistics}
use civo_csi.Host.{Host}
use civo_csi.Driver.{Driver}
use civo_csi.Controller.Create.{invalid}
use civo_csi.Node.Stage.{path_for}

abbrev pub max_volumes_per_node : ℤ
max_volumes_per_node = pos 1024

abbrev pub config_file : String
config_file = "/etc/civostatsd"

abbrev pub usage : VolumeStatistics → List VolumeUsage
usage s =
    record {
      available = s.available_bytes;
      total = s.total_bytes;
      used = s.used_bytes;
      unit = bytes;
    }
    ∷ record {
      available = s.available_inodes;
      total = s.total_inodes;
      used = s.used_inodes;
      unit = inodes;
    }
    ∷ []

-- `if err != nil { return nil, status.Errorf(codes.Internal, format, …, err) }`
abbrev pub or_internal : {W A : Type 0} → (Error → Error) → Action W A → Action W A
or_internal wrap m = do answer ← attempt m; elim answer [ inl a ↦ pure a | inr e ↦ raise (wrap e) ]

module _ {W : Type 0} (host : Host W) (d : Driver W) where
  abbrev env : String → Action W String
  env name = read (λ w. (host.getenv name w, w))

  -- The node's id and region
  unfoldable pub current_node_details_from_env : Action W (String × String)
  current_node_details_from_env = do
    node_id ← env "NODE_ID"
    if node_id == ""
        then (do
          node_name ← env "KUBE_NODE_NAME"
          raise_if (node_name == "") (errorf "NODE_ID is not set and KUBE_NODE_NAME is not set" end)
          instance_found ←
              call (d.civo_client.find_kubernetes_cluster_instance d.cluster_id node_name)
          pure (instance_found.id, instance_found.region))
        else (do id ← env "NODE_ID"; region ← env "REGION"; pure (id, region))

  unfoldable pub current_node_details : Action W (String × String)
  current_node_details = do
    found ← try (host.stat config_file)
    elim found [
      | failed _ ↦ current_node_details_from_env
      | reply _ ↦ (do
        decoded ← try (host.decode_file config_file)
        elim decoded [
          | failed _ ↦ current_node_details_from_env
          | reply config ↦ pure (config.instance_id, config.region)
        ])
    ]

  unfoldable pub node_get_info : Action W NodeInfo
  node_get_info = do
    (id, region) ←
        or_internal
          (λ e. status internal "failed to get current node details: %s" (error_arg e end))
          current_node_details
    pure (record { node_id = id; max_volumes_per_node = max_volumes_per_node; region = region })

module _ {W : Type 0} (d : Driver W) where
  unfoldable pub node_get_volume_stats : PathRequest → Action W (List VolumeUsage)
  node_get_volume_stats req = do
    raise_if (req.volume_id == "") (invalid "must provide a VolumeId to NodeGetVolumeStats")
    raise_if (req.volume_path == "") (invalid "must provide a VolumePath to NodeGetVolumeStats")
    mounted ←
        or_internal
          (λ e.
            status internal "failed to check if volume path %q is mounted: %s"
              (text_arg req.volume_path (error_arg e end)))
          (d.disk_hot_plugger.is_mounted req.volume_path)
    raise_if (not mounted)
        (status not_found "volume path %q is not mounted" (text_arg req.volume_path end))
    stats ←
        or_internal
          (λ e.
            status internal "failed to retrieve capacity statistics for volume path %q: %s"
              (text_arg req.volume_path (error_arg e end)))
          (d.disk_hot_plugger.get_statistics req.volume_path)
    pure (usage stats)

  unfoldable pub node_expand_volume : PathRequest → Action W (Unit {0})
  node_expand_volume req = do
    raise_if (req.volume_id == "") (invalid "must provide a VolumeId to NodeExpandVolume")
    raise_if (req.volume_path == "") (invalid "must provide a VolumePath to NodeExpandVolume")
    call_or
        (λ e.
          status not_found "unable to find VolumeID %q to NodeExpandVolume: %s"
            (text_arg req.volume_id (error_arg (external e) end)))
        (d.civo_client.get_volume req.volume_id)
    attached_disk_path ← path_for d req.volume_id
    raise_if (attached_disk_path == "") (
        status not_found "path to volume (/dev/disk/by-id/%s) not found"
          (text_arg req.volume_id end))
    device ← path_for d req.volume_id
    or_internal (λ e. status internal "failed to expand file system: %s" (error_arg e end))
        (d.disk_hot_plugger.expand_filesystem device)

abbrev pub node_capabilities : List NodeCapability
node_capabilities = stage_unstage_volume ∷ expand_volume ∷ get_volume_stats ∷ []
