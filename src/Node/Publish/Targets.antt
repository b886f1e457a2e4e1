-- ===== src/Node/Publish/Targets.antt =====
-- What publishing and unpublishing do to a target path, by the answer on whether it is mounted.
use civo_csi.Base.{String, ◌≡◌, ◌≢◌, some, arith, ◌==◌, Bool, true, false, not, ◌&&◌, if◌then◌else◌}
use civo_csi.Action.{
  Action, Outcome, ok, err, panic, Reply, reply, code_of, invalid_argument, is_not_exist,
  is_corrupted_mnt,
}
use civo_csi.Disk.Fake.{FakeDisk, fake_disk}
use civo_csi.Host.{Host}
use civo_csi.Csi.{NodePublishRequest, NodeUnpublishRequest}
use civo_csi.Driver.{Driver}
use civo_csi.Controller.Publish.{is_nil}
use civo_csi.Node.Publish.{
  ensure_bound, node_publish_volume, clear_target, release_target, node_unpublish_volume,
}

abbrev pub is_publishable : NodePublishRequest → Bool
is_publishable req =
    not (req.volume_id == "")
    && (not (req.staging_target_path == "")
        && (not (req.target_path == "") && not (is_nil req.volume_capability)))

module _ {W : Type 0} (host : Host W) (d : Driver W) where
  -- An incomplete request is refused with InvalidArgument, and nothing is called.
  pub node_publish-rejects :
      (req : NodePublishRequest) (w : W)
      → is_publishable req ≡ false
      → (code_of (node_publish_volume host d req w).0 ≡ some invalid_argument)
        × ((node_publish_volume host d req w).1 ≡ w)
  unfolding node_publish_volume
  node_publish-rejects req w h = ground arith

  -- What follows an answer of IsMounted on the target.
  abbrev pub unpublish_by : Outcome Bool → String → Action W (Unit {0})
  unpublish_by (ok true) path = release_target host d path
  unpublish_by (ok false) path = clear_target host d path
  unpublish_by (err e) path =
      if is_not_exist e
      then (λ w. (ok tt, w))
      else if is_corrupted_mnt e
      then release_target host d path
      else (λ w. (err e, w))
  unpublish_by panic path = λ w. (panic, w)

  -- For a complete request, NodeUnpublishVolume goes by whether the target is mounted: a mount
  -- point, also a corrupted one, is unmounted and removed, another path is removed with all that is
  -- in it, a path that does not exist is a success with nothing done, and another error is
  -- returned.
  unpublish_cases :
      (req : NodeUnpublishRequest) (w : W)
      → req.volume_id ≢ ""
      → req.target_path ≢ ""
      → let (answer, w') = d.disk_hot_plugger.is_mounted req.target_path w in
        node_unpublish_volume host d req w ≡ unpublish_by answer req.target_path w'
  unfolding node_unpublish_volume
  unpublish_cases req w named at = ground arith

  -- If IsMounted does not answer false for the target, NodeUnpublishVolume does and answers the
  -- same with any other RemoveAll: the recursive removal is not made.
  pub unpublish_keeps_data :
      (req : NodeUnpublishRequest) (other : String → W → Reply (Unit {0}) × W) (w : W)
      → (d.disk_hot_plugger.is_mounted req.target_path w).0 ≢ ok false
      → node_unpublish_volume (record host { remove_all = other }) d req w
        ≡ node_unpublish_volume host d req w
  unfolding node_unpublish_volume release_target
  unpublish_keeps_data req other w h = ground arith

  -- Releasing a mount point removes it only after the unmount succeeded.
  pub release_unmounts :
      (path : String) (w : W)
      → (release_target host d path w).0 ≡ ok tt
      → (d.disk_hot_plugger.unmount path w).0 ≡ ok tt
  unfolding release_target
  release_unmounts path w h = ground arith

-- Over the fake disk
module _ (host : Host FakeDisk) (d : Driver FakeDisk) (req : NodePublishRequest)
    (p : FakeDisk) where
  abbrev faked : Driver FakeDisk
  faked = record d { disk_hot_plugger = fake_disk }

  -- Over the fake disk plugger, for a complete request whose target directory can be made,
  -- NodePublishVolume succeeds with the target mounted.
  node_publish_mounts :
      is_publishable req ≡ true
      → host.mkdir_all req.target_path p ≡ (reply tt, p)
      → let out = node_publish_volume host faked req p in
        (out.0 ≡ ok tt) × (out.1.mounted ≡ true) × (out.1.mountpoint ≡ req.target_path)
  unfolding node_publish_volume ensure_bound
  node_publish_mounts complete made = ground arith
