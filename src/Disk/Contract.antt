-- ===== src/Disk/Contract.antt =====
-- What the node service takes of a disk plugger: how its calls change and show the mounts. A path
-- that is mounted on several times has to be unmounted as often.
use civo_csi.Base.{ℕ, suc, ◌-◌, ltb, String, ◌==◌, ◌≡◌, Bool, true, List, [], ◌∷◌, if◌then◌else◌}
use civo_csi.Action.{ok}
use civo_csi.Disk.{DiskHotPlugger}

-- How often something is mounted on each path
abbrev pub Mounts : Type 0
Mounts = String → ℕ

abbrev pub mounted_once_more : String → Mounts → Mounts
mounted_once_more t f u = if u == t then suc (f u) else f u

abbrev pub mounted_once_less : String → Mounts → Mounts
mounted_once_less t f u = if u == t then f u - 1 else f u

-- The calls that succeed do to the mounts what they say. For Mount this is said of the flags that
-- are allowed, the two lists of flags for a bind mount among them: other flags may ask for something
-- else than one more mount on the target.
pub record KeepsMounts {W : Type 0} (allowed : List String → Bool) (p : DiskHotPlugger W)
    (mounts : W → Mounts) : Type 0 where
  pub allows_bind : allowed ("bind" ∷ []) ≡ true
  pub allows_bind_ro : allowed ("bind" ∷ "ro" ∷ []) ≡ true
  pub path_keeps :
      (id : String) (w : W) (u : String) → mounts (p.path_for_volume id w).1 u ≡ mounts w u
  pub is_formatted_keeps :
      (path : String) (w : W) (u : String) → mounts (p.is_formatted path w).1 u ≡ mounts w u
  pub format_keeps :
      (path fs : String) (w : W) (u : String) → mounts (p.format path fs w).1 u ≡ mounts w u
  pub is_mounted_keeps :
      (target : String) (w : W) (u : String) → mounts (p.is_mounted target w).1 u ≡ mounts w u
  pub is_mounted_says :
      (target : String) (w : W) (b : Bool)
      → (p.is_mounted target w).0 ≡ ok b
      → b ≡ ltb 0 (mounts w target)
  pub mount_adds :
      (path target fs : String) (flags : List String) (w : W) (u : String)
      → allowed flags ≡ true
      → (p.mount path target fs flags w).0 ≡ ok tt
      → mounts (p.mount path target fs flags w).1 u ≡ mounted_once_more target (mounts w) u
  pub unmount_drops :
      (target : String) (w : W) (u : String)
      → (p.unmount target w).0 ≡ ok tt
      → mounts (p.unmount target w).1 u ≡ mounted_once_less target (mounts w) u
