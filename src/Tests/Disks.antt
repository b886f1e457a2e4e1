-- ===== src/Tests/Disks.antt =====
-- The disk plugger that runs commands at concrete data.
use civo_csi.Base.{◌<>◌, ◌≡◌, refl, false, none, some, [], ◌∷◌, string_dec}
use civo_csi.Base.Int.{pos}
use civo_csi.Action.{
  ok, err, Error, external, errorf, error_arg, texts_arg, end, reply, failed, is_not_exist,
  is_corrupted_mnt,
}
use civo_csi.Disk.Real
use civo_csi.Disk.Real.{
  System, Run, RunError, exited, Statfs, statistics, is_formatted, is_mounted, mount_args,
}
use civo_csi.Disk.Real.Checks.{is_mounted-plain}
use civo_csi.Tests.Memory.{not_found_error, Cloud}

-- A system in which `blkid` exits with 2 and other commands succeed
abbrev exit_2 : RunError
exit_2 = exited (pos 2) not_found_error

abbrev small_system : System Cloud
small_system = record {
  glob = λ pattern w. ("/dev/disk/by-id/virtio-id-1" ∷ [], w);
  look_path = λ name w. (reply ("/bin/" <> name), w);
  run = λ name args w. (
    elim (string_dec name "blkid") [
      | yes _ ↦ record { output = ""; error = some exit_2 }
      | no _ ↦ record { output = ""; error = none }
    ],
    w,
  );
  mkdir_all = λ path w. (reply tt, w);
  create_file = λ path w. (reply tt, w);
  dir = λ path. "/";
  statfs = λ path w. (failed not_found_error, w);
}

mount_ok : (Real.mount small_system "/dev/vda" "/target" "ext4" [] []).0 ≡ ok tt
unfolding Real.mount Real.make_mountpoint string_dec Real.confirm_mounted is_mounted
    Real.require_command
mount_ok = refl

-- `findmnt` fails and says something.
abbrev loud_system : System Cloud
loud_system = record small_system {
  run = λ name args w. (record { output = "?"; error = some exit_2 }, w);
}

abbrev findmnt_error : Error
findmnt_error =
    errorf "is device mounted err: %v cmd: findmnt %q"
      (error_arg (external not_found_error) (texts_arg ("-M" ∷ "/target" ∷ []) end))

is_mounted_fails : (is_mounted loud_system "/target" []).0 ≡ err findmnt_error
unfolding is_mounted string_dec Real.require_command Real.is_blank
is_mounted_fails = refl

is_mounted-plain_example :
    (is_not_exist findmnt_error ≡ false) × (is_corrupted_mnt findmnt_error ≡ false)
is_mounted-plain_example =
    is_mounted-plain loud_system "/target" "/bin/findmnt" [] findmnt_error refl is_mounted_fails
