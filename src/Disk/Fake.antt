-- ===== src/Disk/Fake.antt =====
-- `FakeDiskHotPlugger`: a disk plugger whose world is its own record.
use civo_csi.Base.{String, ◌<>◌, ◌==◌, Bool, true, false, not, List, ◌*◌, if◌then◌else◌}
use civo_csi.Base.Int.{pos}
use civo_csi.Action.{Action, ok, err, errorf, end}
use civo_csi.Disk.{DiskHotPlugger, VolumeStatistics}

pub record FakeDisk : Type 0 where
  pub disk_attachment_missing : Bool
  pub filesystem : String
  pub formatted : Bool
  pub format_called : Bool
  pub expand_called : Bool
  pub device : String
  pub mountpoint : String
  pub mounted : Bool
  pub mount_called : Bool

abbrev pub path_for_volume : String → FakeDisk → String × FakeDisk
path_for_volume id p = (if p.disk_attachment_missing then "" else "/fake-dev/disk/by-id/" <> id, p)

abbrev pub format : String → String → Action FakeDisk (Unit {0})
format path fs p = (ok tt, record p { device = path; formatted = true; format_called = true })

abbrev pub expand_filesystem : String → Action FakeDisk (Unit {0})
expand_filesystem path p =
    if not p.formatted
    then (err (errorf "disk must be formatted before being expanded" end), p)
    else (ok tt, record p { device = path; expand_called = true })

abbrev pub mount : String → String → String → List String → Action FakeDisk (Unit {0})
mount path target fs flags p =
    (ok tt, record p { device = path; mountpoint = target; mounted = true; mount_called = true })

abbrev pub unmount : String → Action FakeDisk (Unit {0})
unmount target p = (ok tt, record p { mountpoint = ""; mounted = false })

abbrev pub is_formatted : String → Action FakeDisk Bool
is_formatted path p = (ok p.formatted, p)

abbrev pub is_mounted : String → Action FakeDisk Bool
is_mounted target p = (ok (if not (p.mountpoint == target) then false else p.mounted), p)

abbrev pub get_statistics : String → Action FakeDisk VolumeStatistics
get_statistics path p = (
  ok (record {
    available_bytes = pos (3 * (1024 * 1024 * 1024));
    total_bytes = pos (10 * (1024 * 1024 * 1024));
    used_bytes = pos (7 * (1024 * 1024 * 1024));
    available_inodes = pos 3000;
    total_inodes = pos 10000;
    used_inodes = pos 7000;
  }),
  p,
)

abbrev pub fake_disk : DiskHotPlugger FakeDisk
fake_disk = record {
  path_for_volume = path_for_volume;
  format = format;
  expand_filesystem = expand_filesystem;
  mount = mount;
  unmount = unmount;
  is_formatted = is_formatted;
  is_mounted = is_mounted;
  get_statistics = get_statistics;
}
