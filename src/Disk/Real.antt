-- ===== src/Disk/Real.antt =====
-- `RealDiskHotPlugger`, over the commands and system calls that it makes: a parameter of the model.
pub mod Checks
pub mod Contract
pub mod Manual
use Prim.Native.Char.{code}
use civo_csi.Base.{
  ℕ, String, ◌<>◌, ◌==◌, Bool, true, false, not, ◌&&◌, ◌||◌, leb, nat_eq, Option, none, some, List,
  [], ◌∷◌, ◌++◌, if◌then◌else◌,
}
use civo_csi.Base.Int.{ℤ, pos, eqb_ℤ}
use civo_csi.Base.Int64
use civo_csi.Base.Int64.{wrap}
use civo_csi.Action.{
  Action, Error, ExternalError, Reply, reply, failed, Args, external, errorf, text_arg, texts_arg,
  error_arg, end, ◌>>=◌, ◌>>◌, pure, raise, raise_if, read, call, call_or, try,
}
pub use civo_csi.Disk.Commands.{RunError, exited, not_run, run_error, Run, Statfs, System}
unfoldable pub use civo_csi.Disk.Commands.{is_blank}
use civo_csi.Disk.Commands.{join}
use civo_csi.Disk.{DiskHotPlugger, VolumeStatistics}

abbrev pub blkid_not_found : ℤ
blkid_not_found = pos 2

abbrev pub mount_args : String → List String → String → String → List String
mount_args fs flags path target =
    (if fs == "" then [] else "-t" ∷ fs ∷ [])
    ++ ((elim flags [ [] ↦ [] | f ∷ fs ↦ "-o" ∷ join "," (f ∷ fs) ∷ [] ]) ++ (path ∷ target ∷ []))

-- The conversions `int64(…)` and the arithmetic wrap around.
unfoldable pub statistics : Statfs → VolumeStatistics
statistics s = record {
  available_bytes = Int64.mul (wrap (pos s.bavail)) s.bsize;
  total_bytes = Int64.mul (wrap (pos s.blocks)) s.bsize;
  used_bytes = Int64.mul (Int64.sub (wrap (pos s.blocks)) (wrap (pos s.bfree))) s.bsize;
  available_inodes = wrap (pos s.ffree);
  total_inodes = wrap (pos s.files);
  used_inodes = Int64.sub (wrap (pos s.files)) (wrap (pos s.ffree));
}

module _ {W : Type 0} (sys : System W) where
  abbrev pub run : String → List String → Action W Run
  run cmd args = read (sys.run cmd args)

  -- `exec.LookPath`, and what its error becomes
  unfoldable pub require_command : String → String → Action W (Unit {0})
  require_command name missing = do
    found ← try (sys.look_path name)
    elim found [
      | reply _ ↦ pure tt
      | failed e ↦ if e.is_err_not_found then raise (errorf missing end) else raise (external e)
    ]

  unfoldable pub path_for_volume : String → W → String × W
  path_for_volume id w =
      let (matches, w') = sys.glob ("/dev/disk/by-id/*" <> id) w in
      (elim matches [ [] ↦ "" | m ∷ _ ↦ m ], w')

  unfoldable pub is_formatted : String → Action W Bool
  is_formatted path = do
    raise_if (path == "") (errorf "path to check is empty" end)
    require_command "blkid" "blkid executable not found in $PATH"
    done ← run "blkid" (path ∷ [])
    elim done.error [
      | none ↦ pure true
      | some (not_run e) ↦ raise (
          errorf "is device formatted err: %v cmd: blkid %q"
            (error_arg (external e) (texts_arg (path ∷ []) end)))
      | some (exited code e) ↦
          if eqb_ℤ code blkid_not_found
          then pure false
          else raise (
              errorf "is device formatted err: %v cmd: blkid %q"
                (error_arg (external e) (texts_arg (path ∷ []) end)))
    ]

  unfoldable pub is_mounted : String → Action W Bool
  is_mounted path = do
    raise_if (path == "") (errorf "path is empty" end)
    require_command "findmnt" "findmnt executable not found in $PATH"
    done ← run "findmnt" ("-M" ∷ path ∷ [])
    elim done.error [
      | none ↦ pure true
      | some e ↦
          if is_blank done.output
          then pure false
          else raise (
              errorf "is device mounted err: %v cmd: findmnt %q"
                (error_arg (run_error e) (texts_arg ("-M" ∷ path ∷ []) end)))
    ]

  unfoldable pub expand_filesystem : String → Action W (Unit {0})
  expand_filesystem path = do
    formatted ← is_formatted path
    raise_if (not formatted)
        (errorf "path given to expand filesystem must already be formatted: %s" (text_arg path end))
    done ← run "/usr/sbin/resize2fs" (path ∷ [])
    elim done.error [
      | none ↦ pure tt
      | some e ↦ raise (
          errorf "resizing with 'resize2fs %s' failed: %v output: %s"
            (text_arg path (error_arg (run_error e) (text_arg done.output end))))
    ]

  unfoldable pub format : String → String → Action W (Unit {0})
  format path fs = do
    done ← run ("mkfs." <> fs) (path ∷ [])
    elim done.error [
      | some e ↦ raise (
          errorf "formatting with 'mkfs.%s %s' failed: %v output: %s"
            (text_arg fs (text_arg path (error_arg (run_error e) (text_arg done.output end)))))
      | none ↦ (do
        formatted ← is_formatted path
        raise_if (not formatted) (
            errorf "failed to ensure it was formatted, output of 'mkfs.%s %s' is %s"
              (text_arg fs (text_arg path (text_arg done.output end)))))
    ]

  -- The file or the folder to mount on
  unfoldable pub make_mountpoint : String → String → Action W (Unit {0})
  make_mountpoint target fs =
      if fs == ""
      then (do
        call_or
            (λ e.
              errorf "creating mountpoint containing folder failed: %v"
                (error_arg (external e) end))
            (sys.mkdir_all (sys.dir target))
        call_or
            (λ e.
              errorf "failed to create target file for raw block bind mount: %v"
                (error_arg (external e) end))
            (sys.create_file target))
      else call_or (λ e. errorf "creating mountpoint failed: %v" (error_arg (external e) end))
          (sys.mkdir_all target)

  -- What follows the command: a mount that does not show is an error.
  unfoldable pub confirm_mounted : String → List String → String → Action W (Unit {0})
  confirm_mounted target args output = do
    mounted ← is_mounted target
    raise_if (not mounted) (
        errorf "after apparently successful mounting, still not mounted - mount %s output: %s"
          (text_arg (join " " args) (text_arg output end)))

  unfoldable pub mount : String → String → String → List String → Action W (Unit {0})
  mount path target fs flags = do
    make_mountpoint target fs
    let args = mount_args fs flags path target
    done ← run "mount" args
    elim done.error [
      | some e ↦ raise (
          errorf "mounting with 'mount %s' failed: %v output: %s"
            (text_arg (join " " args) (error_arg (run_error e) (text_arg done.output end))))
      | none ↦ confirm_mounted target args done.output
    ]

  unfoldable pub unmount : String → Action W (Unit {0})
  unmount target = do
    done ← run "umount" (target ∷ [])
    elim done.error [
      | none ↦ pure tt
      | some e ↦ raise (
          errorf "unmounting with 'umount %s' failed: %v output: %s"
            (text_arg target (error_arg (run_error e) (text_arg done.output end))))
    ]

  unfoldable pub get_statistics : String → Action W VolumeStatistics
  get_statistics path = do s ← call (sys.statfs path); pure (statistics s)

  abbrev pub real_disk : DiskHotPlugger W
  real_disk = record {
    path_for_volume = path_for_volume;
    format = format;
    expand_filesystem = expand_filesystem;
    mount = mount;
    unmount = unmount;
    is_formatted = is_formatted;
    is_mounted = is_mounted;
    get_statistics = get_statistics;
  }
