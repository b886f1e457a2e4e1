-- ===== src/Node/Stage/Calls.antt =====
-- What staging does to disks and mounts, over a recorded disk plugger.
use civo_csi.Base.{
  String, ◌≡◌, ◌≢◌, some, List, [], ◌∷◌, arith, ◌==◌, Bool, true, false, not, ◌&&◌, ◌||◌, ◌<>◌,
}
use civo_csi.Action.{Outcome, ok, code_of, invalid_argument}
use civo_csi.Disk.{DiskHotPlugger}
use civo_csi.Disk.Fake.{FakeDisk, fake_disk}
use civo_csi.Disk.Recorded.{DiskEvent, formatting, Journal, recorded_disk}
use civo_csi.Csi.{StageRequest, UnstageRequest}
use civo_csi.Driver.{Driver}
use civo_csi.Controller.Publish.{is_nil}
use civo_csi.Node.Stage.{ensure_formatted, ensure_staged, node_stage_volume, node_unstage_volume}

abbrev pub formats : List DiskEvent → List DiskEvent
formats [] = []
formats (formatting path fs ∷ es) = formatting path fs ∷ formats es
formats (_ ∷ es) = formats es

abbrev pub is_stageable : StageRequest → Bool
is_stageable req =
    not (req.volume_id == "")
    && (not (req.staging_target_path == "") && not (is_nil req.volume_capability))

-- The driver over a recorded disk plugger
abbrev pub on_disk : {W : Type 0} → DiskHotPlugger W → Driver (Journal W) → Driver (Journal W)
on_disk p d = record d { disk_hot_plugger = recorded_disk p }

module _ {W : Type 0} (p : DiskHotPlugger W) (d : Driver (Journal W)) where
  formats-ensure_staged :
      (req : StageRequest) (w : Journal W)
      → formats (ensure_staged (on_disk p d) req w).1.1 ≡ formats w.1
  unfolding ensure_staged
  formats-ensure_staged req w = ground arith

  -- The call of Format that an answer of IsFormatted leads to.
  abbrev pub formats_for : Outcome Bool → String → List DiskEvent
  formats_for (ok false) device = formatting device "ext4" ∷ []
  formats_for _ device = []

  formats-ensure_formatted :
      (id path : String) (w : W)
      → formats (ensure_formatted (on_disk p d) id path (w, [])).1.1
        ≡ formats_for (p.is_formatted path w).0 (p.path_for_volume id (p.is_formatted path w).1).0
  unfolding ensure_formatted
  formats-ensure_formatted id path w = ground arith

  -- For a complete request of NodeStageVolume and an attached disk, Format is called exactly if
  -- IsFormatted answered false for the disk's path, and then once: a disk that holds a filesystem,
  -- or for which the check failed, is not formatted.
  pub stage_formats :
      (req : StageRequest) (w : W)
      → is_stageable req ≡ true
      → (p.path_for_volume req.volume_id w).0 ≢ ""
      → let (path, w') = p.path_for_volume req.volume_id w in
        formats (node_stage_volume (on_disk p d) req (w, [])).1.1
        ≡ formats_for
            (p.is_formatted path w').0
            (p.path_for_volume req.volume_id (p.is_formatted path w').1).0
  unfolding node_stage_volume
  stage_formats req w complete there =
      let (path, w') = p.path_for_volume req.volume_id w in
      let made = ensure_formatted (on_disk p d) req.volume_id path (w', []) in
      ground
        (arith, formats-ensure_formatted req.volume_id path w', formats-ensure_staged req made.1)

module _ {W : Type 0} (d : Driver W) where
  -- An incomplete request is refused with InvalidArgument, and nothing is called.
  pub stage-rejects :
      (req : StageRequest) (w : W)
      → is_stageable req ≡ false
      → (code_of (node_stage_volume d req w).0 ≡ some invalid_argument)
        × ((node_stage_volume d req w).1 ≡ w)
  unfolding node_stage_volume
  stage-rejects req w h = ground arith

-- Over the fake disk
module _ (d : Driver FakeDisk) (req : StageRequest) (p : FakeDisk) where
  abbrev faked : Driver FakeDisk
  faked = record d { disk_hot_plugger = fake_disk }

  -- Over the fake disk plugger, for a complete request whose disk is attached and not the mount
  -- point, NodeStageVolume formats the disk if it was not formatted and mounts it on the staging
  -- path; NodeUnstageVolume then unmounts it, and leaves it formatted.
  stage_unstage :
      is_stageable req ≡ true
      → p.disk_attachment_missing ≡ false
      → p.mountpoint ≢ "/fake-dev/disk/by-id/" <> req.volume_id
      → "/fake-dev/disk/by-id/" <> req.volume_id ≢ ""
      → let back : UnstageRequest = record {
        volume_id = req.volume_id;
        staging_target_path = req.staging_target_path;
      } in
        let staged = node_stage_volume faked req p in
        let unstaged = node_unstage_volume faked back staged.1 in
        (staged.0 ≡ ok tt)
        × (staged.1.formatted ≡ true)
        × (staged.1.format_called ≡ (not p.formatted || p.format_called))
        × (staged.1.mounted ≡ true)
        × (staged.1.mountpoint ≡ req.staging_target_path)
        × (unstaged.0 ≡ ok tt)
        × (unstaged.1.mounted ≡ false)
        × (unstaged.1.formatted ≡ true)
  unfolding node_stage_volume node_unstage_volume ensure_formatted ensure_staged
  stage_unstage complete there elsewhere named = ground arith
