-- ===== src/Node/Mounts.antt =====
-- The calls of the node service as changes to the mounts: what `NodeStageVolume`,
-- `NodeUnstageVolume`, `NodePublishVolume` and `NodeUnpublishVolume` amount to.
pub mod Steps
pub mod Runs
pub mod Lifecycle
use civo_csi.Base.{
  ℕ, suc, ◌-◌, ◌<◌, ltb, String, ◌==◌, ◌≡◌, ◌≢◌, Bool, true, false, not, ◌&&◌, List, [], ◌∷◌,
  if◌then◌else◌,
}
use civo_csi.Action.{Outcome, ok, reply}
use civo_csi.Csi.{StageRequest, UnstageRequest, NodePublishRequest, NodeUnpublishRequest}
use civo_csi.Disk.Contract.{Mounts, mounted_once_more, mounted_once_less}
use civo_csi.Host.{Host}
use civo_csi.Driver.{Driver}
use civo_csi.Node.Stage.{mount_flags, node_stage_volume, node_unstage_volume}
use civo_csi.Node.Stage.Calls.{is_stageable}
use civo_csi.Node.Publish.{node_publish_volume, node_unpublish_volume}
use civo_csi.Node.Publish.Targets.{is_publishable}

abbrev pub is_unstageable : UnstageRequest → Bool
is_unstageable req = not (req.volume_id == "") && not (req.staging_target_path == "")

abbrev pub is_unpublishable : NodeUnpublishRequest → Bool
is_unpublishable req = not (req.volume_id == "") && not (req.target_path == "")

-- A mount on a path unless there is one.
abbrev pub ensure_mounted : String → String → Mounts → Mounts
ensure_mounted asked target f = if ltb 0 (f asked) then f else mounted_once_more target f

abbrev pub ensure_unmounted : String → Mounts → Mounts
ensure_unmounted target f = if ltb 0 (f target) then mounted_once_less target f else f

pub data NodeCall : Type 0 where
  stage : StageRequest → NodeCall
  unstage : UnstageRequest → NodeCall
  publish : NodePublishRequest → NodeCall
  unpublish : NodeUnpublishRequest → NodeCall

-- Staging asks for the mounts of the device of the volume, and the other calls for those of the
-- path that they work on. An incomplete request changes nothing.
abbrev pub change : (String → String) → NodeCall → Mounts → Mounts
change device (stage req) f =
    if is_stageable req then ensure_mounted (device req.volume_id) req.staging_target_path f else f
change device (unstage req) f =
    if is_unstageable req then ensure_unmounted req.staging_target_path f else f
change device (publish req) f =
    if is_publishable req then ensure_mounted req.target_path req.target_path f else f
change device (unpublish req) f =
    if is_unpublishable req then ensure_unmounted req.target_path f else f

abbrev pub replay : (String → String) → List NodeCall → Mounts → Mounts
replay device [] f = f
replay device (c ∷ cs) f = replay device cs (change device c f)

-- The mount flags that the call hands to Mount from its request are allowed.
abbrev pub asks_allowed : (List String → Bool) → NodeCall → Bool
asks_allowed allowed (stage req) = allowed (mount_flags req.volume_capability)
asks_allowed allowed _ = true

module _ {W : Type 0} (host : Host W) (d : Driver W) where
  abbrev pub call_node : NodeCall → W → Outcome (Unit {0}) × W
  call_node (stage req) = node_stage_volume d req
  call_node (unstage req) = node_unstage_volume d req
  call_node (publish req) = node_publish_volume host d req
  call_node (unpublish req) = node_unpublish_volume host d req

  abbrev pub run_node : List NodeCall → W → W
  run_node [] w = w
  run_node (c ∷ cs) w = run_node cs (call_node c w).1

  -- A node on which nothing fails: the disk of a volume is there, under the path `device`, the
  -- tests answer, mounting and formatting succeed, as do unmounting what is mounted and making and
  -- removing directories, which no mount depends on.
  pub record Works (mounts : W → Mounts) (device : String → String) : Type 0 where
    pub path : (id : String) (w : W) → (d.disk_hot_plugger.path_for_volume id w).0 ≡ device id
    pub attached : (id : String) → device id ≢ ""
    pub is_formatted_answers :
        (id : String) (w : W)
        → (b : Bool) × ((d.disk_hot_plugger.is_formatted (device id) w).0 ≡ ok b)
    pub formats : (id : String) (w : W) → (d.disk_hot_plugger.format (device id) "ext4" w).0 ≡ ok tt
    pub is_mounted_answers :
        (target : String) (w : W)
        → target ≢ ""
        → (b : Bool) × ((d.disk_hot_plugger.is_mounted target w).0 ≡ ok b)
    pub mounts_ok :
        (source target : String) (flags : List String) (w : W)
        → target ≢ ""
        → (d.disk_hot_plugger.mount source target "ext4" flags w).0 ≡ ok tt
    pub unmounts_ok :
        (target : String) (w : W)
        → 0 < mounts w target
        → (d.disk_hot_plugger.unmount target w).0 ≡ ok tt
    pub makes : (path : String) (w : W) → (host.mkdir_all path w).0 ≡ reply tt
    pub removes : (path : String) (w : W) → (host.remove path w).0 ≡ reply tt
    pub removes_all : (path : String) (w : W) → (host.remove_all path w).0 ≡ reply tt
    pub mkdir_keeps :
        (path : String) (w : W) (u : String) → mounts (host.mkdir_all path w).1 u ≡ mounts w u
    pub remove_keeps :
        (path : String) (w : W) (u : String) → mounts (host.remove path w).1 u ≡ mounts w u
    pub remove_all_keeps :
        (path : String) (w : W) (u : String) → mounts (host.remove_all path w).1 u ≡ mounts w u
