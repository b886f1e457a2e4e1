-- ===== src/Disk/Real/Manual.antt =====
-- What the manuals say of the commands and system calls of `RealDiskHotPlugger`.
use civo_csi.Base.{
  ◌<◌, String, ◌<>◌, ◌==◌, ◌≡◌, Bool, true, List, [], ◌∷◌, ◌++◌, none, some, any, all,
  if◌then◌else◌,
}
use civo_csi.Base.Int.{pos}
use civo_csi.Action.{ExternalError}
use civo_csi.Disk.Contract.{Mounts, mounted_once_more, mounted_once_less}
use civo_csi.Disk.Real.{System, RunError, exited, is_blank, join}

-- Flags of `mount -o` that qualify a new mount. Others, such as `remount`, `move` or `rbind`, ask for
-- something else than one more mount on the target.
abbrev plain_flags : List String
plain_flags =
    "bind" ∷ "ro" ∷ "rw" ∷ "defaults" ∷ "noatime" ∷ "nodiratime" ∷ "relatime" ∷ "nosuid" ∷ "nodev"
    ∷ "noexec" ∷ "sync" ∷ "async" ∷ "discard" ∷ []

abbrev pub all_plain : List String → Bool
all_plain = all (λ flag. any (λ plain. flag == plain) plain_flags)

-- The options of `mount` that name a filesystem, if any, and flags, if any
abbrev pub mount_options : String → List String → List String
mount_options fs flags =
    (if fs == "" then [] else "-t" ∷ fs ∷ [])
    ++ (elim flags [ [] ↦ [] | f ∷ fs ↦ "-o" ∷ join "," (f ∷ fs) ∷ [] ])

-- What the commands and the system calls do to the mounts, as their manuals say: `mount` with a
-- filesystem and plain flags adds one on the target, `umount` takes one away, `findmnt -M` ends with
-- status 0 if there is one, and with status 1 and no output if there is none, and the others change
-- none.
pub record KeepsMountTable {W : Type 0} (sys : System W) (mounts : W → Mounts) : Type 0 where
  pub glob_keeps :
      (pattern : String) (w : W) (u : String) → mounts (sys.glob pattern w).1 u ≡ mounts w u
  pub look_path_keeps :
      (name : String) (w : W) (u : String) → mounts (sys.look_path name w).1 u ≡ mounts w u
  pub mkdir_all_keeps :
      (path : String) (w : W) (u : String) → mounts (sys.mkdir_all path w).1 u ≡ mounts w u
  pub create_file_keeps :
      (path : String) (w : W) (u : String) → mounts (sys.create_file path w).1 u ≡ mounts w u
  pub blkid_keeps :
      (args : List String) (w : W) (u : String) → mounts (sys.run "blkid" args w).1 u ≡ mounts w u
  pub mkfs_keeps :
      (fs : String) (args : List String) (w : W) (u : String)
      → mounts (sys.run ("mkfs." <> fs) args w).1 u ≡ mounts w u
  pub findmnt_keeps :
      (args : List String) (w : W) (u : String) → mounts (sys.run "findmnt" args w).1 u ≡ mounts w u
  pub findmnt_shows :
      (target : String) (w : W)
      → (sys.run "findmnt" ("-M" ∷ target ∷ []) w).0.error ≡ none
      → 0 < mounts w target
  pub findmnt_silent :
      (target : String) (w : W) (e : ExternalError)
      → (sys.run "findmnt" ("-M" ∷ target ∷ []) w).0.error ≡ some (exited (pos 1) e)
      → is_blank (sys.run "findmnt" ("-M" ∷ target ∷ []) w).0.output ≡ true
      → mounts w target ≡ 0
  pub mount_adds :
      (fs : String) (flags : List String) (source target : String) (w : W) (u : String)
      → all_plain flags ≡ true
      → let args = mount_options fs flags ++ (source ∷ target ∷ []) in
        (sys.run "mount" args w).0.error ≡ none
        → mounts (sys.run "mount" args w).1 u ≡ mounted_once_more target (mounts w) u
  pub umount_drops :
      (target : String) (w : W) (u : String)
      → (sys.run "umount" (target ∷ []) w).0.error ≡ none
      → mounts (sys.run "umount" (target ∷ []) w).1 u ≡ mounted_once_less target (mounts w) u

-- `findmnt` can be started and is not killed: an error of it is its own status 1.
pub record FindmntRuns {W : Type 0} (sys : System W) : Type 0 where
  pub ends :
      (target : String) (w : W) (e : RunError)
      → (sys.run "findmnt" ("-M" ∷ target ∷ []) w).0.error ≡ some e
      → (x : ExternalError) × (e ≡ exited (pos 1) x)
