-- ===== src/Tests/Table.antt =====
-- A system whose state is its mounts, on which every command works; and the node service over the
-- disk plugger that runs the commands of that system.
use Prim.Native.Char.{code}
use text.Mathlib.TextLemmas.{cons-append}
use civo_csi.Base.{
  ℕ, zero, suc, nat_eq, String, ◌<>◌, ◌==◌, ==-refl, string_dec, ◌≡◌, ◌≢◌, refl, ap, ◌∙◌, Bool,
  true, false, List, [], ◌∷◌, ◌++◌, none, some, if◌then◌else◌, arith,
}
use civo_csi.Action.{ok, reply, ExternalError}
use civo_csi.Base.Int.{pos}
use civo_csi.Disk.Contract.{Mounts, mounted_once_more, mounted_once_less}
use civo_csi.Disk.Real.{System, Statfs, Run, RunError, exited, real_disk}
use civo_csi.Disk.Real.Manual.{mount_options, KeepsMountTable, FindmntRuns}
use civo_csi.Disk.Real
use civo_csi.Driver.{Driver}
use civo_csi.Node.Mounts.{Works}
use civo_csi.Tests.Memory.{node_driver, quiet_host, not_found_error, ne_of}

abbrev first_arg : List String → String
first_arg [] = ""
first_arg (s ∷ _) = s

abbrev last_arg : List String → String
last_arg [] = ""
last_arg (s ∷ []) = s
last_arg (_ ∷ t ∷ rest) = last_arg (t ∷ rest)

abbrev succeeded : Run
succeeded = record { output = ""; error = none }

abbrev found_none : Run
found_none = record { output = ""; error = some (exited (pos 1) not_found_error) }

-- What `findmnt` ends in for a path with so many mounts
abbrev shown : ℕ → Run
shown zero = found_none
shown (suc n) = succeeded

abbrev run_table : String → List String → Mounts → Run × Mounts
run_table name args w =
    if name == "mount"
    then (succeeded, mounted_once_more (last_arg args) w)
    else if name == "umount"
    then (succeeded, mounted_once_less (first_arg args) w)
    else if name == "findmnt"
    then (shown (w (last_arg args)), w)
    else (succeeded, w)

abbrev pub filesystem : Statfs
filesystem = record {
  bavail = 700;
  blocks = 1000;
  bfree = 750;
  bsize = pos 4096;
  ffree = 90;
  files = 100;
}

abbrev pub table : System Mounts
table = record {
  glob = λ pattern w. ("/dev/disk/by-id/virtio-id-1" ∷ [], w);
  look_path = λ name w. (reply ("/bin/" <> name), w);
  run = run_table;
  mkdir_all = λ path w. (reply tt, w);
  create_file = λ path w. (reply tt, w);
  dir = λ path. "/";
  statfs = λ path w. (reply filesystem, w);
}

last_arg-append : (options : List String) (s t : String) → last_arg (options ++ (s ∷ t ∷ [])) ≡ t
last_arg-append [] s t = refl
last_arg-append (o ∷ []) s t = refl
last_arg-append (o ∷ o' ∷ rest) s t = last_arg-append (o' ∷ rest) s t

-- The code of the second character
second : String → ℕ
second String.[] = 0
second (String.◌∷◌ c String.[]) = 0
second (String.◌∷◌ c (String.◌∷◌ c' s)) = code c'

second-mkfs : (fs : String) → second ("mkfs." <> fs) ≡ 107
unfolding second
second-mkfs fs =
    ap second (cons-append "m" "kfs." fs)
    ∙ ap (λ (s : String). second (String.◌∷◌ "m" s)) (cons-append "k" "fs." fs)

mkfs_ne : (fs name : String) → nat_eq (second name) 107 ≡ false → (("mkfs." <> fs) == name) ≡ false
mkfs_ne fs name h = ground (arith, second-mkfs fs, λ (e : "mkfs." <> fs ≡ name). ap second e)

pub table-KeepsMountTable : KeepsMountTable table (λ w. w)
unfolding string_dec second
table-KeepsMountTable = record {
  glob_keeps = λ pattern w u. refl;
  look_path_keeps = λ name w u. refl;
  mkdir_all_keeps = λ path w u. refl;
  create_file_keeps = λ path w u. refl;
  blkid_keeps = λ args w u. refl;
  mkfs_keeps = λ fs args w u.
      rw (mkfs_ne fs "mount" refl, mkfs_ne fs "umount" refl, mkfs_ne fs "findmnt" refl) refl;
  findmnt_keeps = λ args w u. refl;
  findmnt_shows = λ target w h. ground arith;
  findmnt_silent = λ target w e h silent. ground arith;
  mount_adds = λ fs flags source target w u plain h.
      rw (last_arg-append (mount_options fs flags) source target) refl;
  umount_drops = λ target w u h. refl;
}

table-shown :
    (n : ℕ) (e : RunError) → (shown n).error ≡ some e → (x : ExternalError) × (e ≡ exited (pos 1) x)
table-shown zero e h = (not_found_error, ground arith)
table-shown (suc n) e h = ground arith

pub table-FindmntRuns : FindmntRuns table
unfolding string_dec
table-FindmntRuns = record { ends = λ target w e h. table-shown (w target) e h }

abbrev pub table_driver : Driver Mounts
table_driver = node_driver (real_disk table)

abbrev pub device : String → String
device id = "/dev/disk/by-id/virtio-id-1"

table-mounts_ok :
    (source target : String) (flags : List String) (w : Mounts)
    → target ≢ ""
    → (Real.mount table source target "ext4" flags w).0 ≡ ok tt
unfolding Real.mount Real.make_mountpoint Real.confirm_mounted Real.is_mounted Real.require_command
    string_dec
table-mounts_ok source target [] w there = ground (arith, ==-refl target)
table-mounts_ok source target (f ∷ fs) w there = ground (arith, ==-refl target)

eq_false : (s t : String) → s ≢ t → (s == t) ≡ false
eq_false s t h = ground arith

table-is_mounted :
    (n : ℕ) (target : String) (w : Mounts)
    → target ≢ ""
    → w target ≡ n
    → (b : Bool) × ((Real.is_mounted table target w).0 ≡ ok b)
unfolding Real.is_mounted Real.require_command Real.is_blank string_dec
table-is_mounted zero target w there e = (false, rw (eq_false target "" there, e) (rw e refl))
table-is_mounted (suc n) target w there e = (true, rw (eq_false target "" there, e) refl)

pub table-Works : Works quiet_host table_driver (λ w. w) device
unfolding Real.path_for_volume Real.is_formatted Real.is_mounted Real.format Real.unmount
    Real.require_command Real.is_blank string_dec
table-Works = record {
  path = λ id w. refl;
  attached = λ id. ne_of "/dev/disk/by-id/virtio-id-1" "" refl;
  is_formatted_answers = λ id w. (true, refl);
  formats = λ id w. refl;
  is_mounted_answers = λ target w there. table-is_mounted (w target) target w there refl;
  mounts_ok = table-mounts_ok;
  unmounts_ok = λ target w h. refl;
  makes = λ path w. refl;
  removes = λ path w. refl;
  removes_all = λ path w. refl;
  mkdir_keeps = λ path w u. refl;
  remove_keeps = λ path w u. refl;
  remove_all_keeps = λ path w u. refl;
}
