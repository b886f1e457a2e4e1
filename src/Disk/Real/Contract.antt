-- ===== src/Disk/Real/Contract.antt =====
-- `RealDiskHotPlugger` keeps the mounts, if the commands that it runs do what they say.
use mathlib.Core.Path.{subst}
use mathlib.Core.List.{append_assoc}
use civo_csi.Base.{
  refl, string_dec, ap, ◌∙◌, ◌<◌, ltb, String, ◌<>◌, ◌==◌, ◌≡◌, Bool, true, List, [], ◌∷◌, ◌++◌,
  none, some, if◌then◌else◌, inl, inr, Option-cases, arith,
}
use civo_csi.Action.{ok, Reply-cases}
use civo_csi.Disk.Contract.{Mounts, mounted_once_more, mounted_once_less, KeepsMounts}
use civo_csi.Disk.Real.{
  System, require_command, path_for_volume, is_formatted, is_mounted, format, make_mountpoint, join,
  mount, unmount, mount_args, real_disk,
}
use civo_csi.Disk.Real.Manual.{all_plain, mount_options, KeepsMountTable, FindmntRuns}
use civo_csi.Disk.Real.Checks.{mount_seen}

module _ {W : Type 0} (sys : System W) (mounts : W → Mounts)
    (keeps : KeepsMountTable sys mounts) where
  require-keeps :
      (name missing : String) (w : W) (u : String)
      → mounts (require_command sys name missing w).1 u ≡ mounts w u
  unfolding require_command
  require-keeps name missing w u = elim (Reply-cases (sys.look_path name w).0) [
    | inl (found, e) ↦ ground (arith, keeps.look_path_keeps name w u)
    | inr (x, e) ↦ ground (arith, keeps.look_path_keeps name w u)
  ]

  is_formatted-keeps :
      (path : String) (w : W) (u : String) → mounts (is_formatted sys path w).1 u ≡ mounts w u
  unfolding is_formatted
  is_formatted-keeps path w u =
      let w₁ = (require_command sys "blkid" "blkid executable not found in $PATH" w).1 in
      ground (
        arith,
        require-keeps "blkid" "blkid executable not found in $PATH" w u,
        keeps.blkid_keeps (path ∷ []) w₁ u,
      )

  is_mounted-keeps :
      (target : String) (w : W) (u : String) → mounts (is_mounted sys target w).1 u ≡ mounts w u
  unfolding is_mounted
  is_mounted-keeps target w u =
      let missing : String = "findmnt executable not found in $PATH" in
      let w₁ = (require_command sys "findmnt" missing w).1 in
      ground
        (arith, require-keeps "findmnt" missing w u, keeps.findmnt_keeps ("-M" ∷ target ∷ []) w₁ u)

  -- A mount that IsMounted reports is there.
  pub is_mounted-shows :
      (target : String) (w : W) → (is_mounted sys target w).0 ≡ ok true → 0 < mounts w target
  unfolding is_mounted
  is_mounted-shows target w h =
      let missing : String = "findmnt executable not found in $PATH" in
      let w₁ = (require_command sys "findmnt" missing w).1 in
      let same = require-keeps "findmnt" missing w target in
      elim (Option-cases (sys.run "findmnt" ("-M" ∷ target ∷ []) w₁).0.error) [
        | inl e ↦ ground (arith, same, keeps.findmnt_shows target w₁ e)
        | inr (x, e) ↦ ground arith
      ]

  is_mounted-says :
      (runs : FindmntRuns sys) (target : String) (w : W) (b : Bool)
      → (is_mounted sys target w).0 ≡ ok b
      → b ≡ ltb 0 (mounts w target)
  unfolding is_mounted
  is_mounted-says runs target w b h =
      let missing : String = "findmnt executable not found in $PATH" in
      let w₁ = (require_command sys "findmnt" missing w).1 in
      let same = require-keeps "findmnt" missing w target in
      elim (Option-cases (sys.run "findmnt" ("-M" ∷ target ∷ []) w₁).0.error) [
        | inl e ↦ ground (arith, same, keeps.findmnt_shows target w₁ e)
        | inr (x, e) ↦
            let (y, own) = runs.ends target w₁ x e in
            ground (arith, same, own, keeps.findmnt_silent target w₁ y (e ∙ ap some own))
      ]

  format-keeps :
      (path fs : String) (w : W) (u : String) → mounts (format sys path fs w).1 u ≡ mounts w u
  unfolding format
  format-keeps path fs w u =
      let w₁ = (sys.run ("mkfs." <> fs) (path ∷ []) w).1 in
      ground (arith, keeps.mkfs_keeps fs (path ∷ []) w u, is_formatted-keeps path w₁ u)

  make_mountpoint-keeps :
      (target fs : String) (w : W) (u : String)
      → mounts (make_mountpoint sys target fs w).1 u ≡ mounts w u
  unfolding make_mountpoint
  make_mountpoint-keeps target fs w u =
      let (r, w₁) = sys.mkdir_all (sys.dir target) w in
      elim (Reply-cases r) [
        | inl (_, e) ↦ ground (
          arith,
          keeps.mkdir_all_keeps (sys.dir target) w u,
          keeps.create_file_keeps target w₁ u,
          keeps.mkdir_all_keeps target w u,
        )
        | inr (x, e) ↦
            ground
              (arith, keeps.mkdir_all_keeps (sys.dir target) w u, keeps.mkdir_all_keeps target w u)
      ]

  mount_args-split :
      (path target fs : String) (flags : List String)
      → mount_options fs flags ++ (path ∷ target ∷ []) ≡ mount_args fs flags path target
  mount_args-split path target fs flags =
      append_assoc (if fs == "" then [] else "-t" ∷ fs ∷ [])
        (elim flags [ [] ↦ [] | f ∷ fs ↦ "-o" ∷ join "," (f ∷ fs) ∷ [] ]) (path ∷ target ∷ [])

  run_mount-adds :
      (path target fs : String) (flags : List String) (w : W) (u : String)
      → all_plain flags ≡ true
      → (sys.run "mount" (mount_args fs flags path target) w).0.error ≡ none
      → mounts (sys.run "mount" (mount_args fs flags path target) w).1 u
        ≡ mounted_once_more target (mounts w) u
  run_mount-adds path target fs flags w u plain =
      subst
        (λ args.
          (sys.run "mount" args w).0.error ≡ none
          → mounts (sys.run "mount" args w).1 u ≡ mounted_once_more target (mounts w) u)
        (mount_args-split path target fs flags) (keeps.mount_adds fs flags path target w u plain)

  mount-adds :
      (path target fs : String) (flags : List String) (w : W) (u : String)
      → all_plain flags ≡ true
      → (mount sys path target fs flags w).0 ≡ ok tt
      → mounts (mount sys path target fs flags w).1 u ≡ mounted_once_more target (mounts w) u
  mount-adds path target fs flags w u plain h =
      let (done, shown, world) = mount_seen sys path target fs flags w h in
      let w₁ = (make_mountpoint sys target fs w).1 in
      let w₂ = (sys.run "mount" (mount_args fs flags path target) w₁).1 in
      ground (
        arith,
        world,
        is_mounted-keeps target w₂ u,
        run_mount-adds path target fs flags w₁ u plain done,
        make_mountpoint-keeps target fs w u,
      )

  unmount-drops :
      (target : String) (w : W) (u : String)
      → (unmount sys target w).0 ≡ ok tt
      → mounts (unmount sys target w).1 u ≡ mounted_once_less target (mounts w) u
  unfolding unmount
  unmount-drops target w u h = ground (arith, keeps.umount_drops target w u)

  path-keeps :
      (id : String) (w : W) (u : String) → mounts (path_for_volume sys id w).1 u ≡ mounts w u
  unfolding path_for_volume
  path-keeps id w u = keeps.glob_keeps ("/dev/disk/by-id/*" <> id) w u

  -- If the commands and system calls do to the mounts what their manuals say, and findmnt can be
  -- started and is not killed, then the methods of RealDiskHotPlugger do what the node service takes
  -- of them: Mount with plain flags, or none, adds one mount on the target, Unmount takes one away,
  -- IsMounted shows whether there is one, and the others change none.
  pub real_disk-KeepsMounts :
      (runs : FindmntRuns sys) → KeepsMounts all_plain (real_disk sys) mounts
  unfolding string_dec
  real_disk-KeepsMounts runs = record {
    allows_bind = refl;
    allows_bind_ro = refl;
    path_keeps = path-keeps;
    is_formatted_keeps = is_formatted-keeps;
    format_keeps = format-keeps;
    is_mounted_keeps = is_mounted-keeps;
    is_mounted_says = is_mounted-says runs;
    mount_adds = mount-adds;
    unmount_drops = unmount-drops;
  }
