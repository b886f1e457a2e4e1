-- ===== src/Disk/Real/Checks.antt =====
-- What the real disk plugger concludes from the commands that it runs.
use civo_csi.Base.{ℕ, String, ◌≡◌, ◌+◌, ◌*◌, ◌-◌, ◌^◌, ◌≤◌, ◌<◌, none, List, arith, true, false}
use civo_csi.Base.Int.{pos, ◌+ℤ◌, ◌≤ℤ◌, int_laws}
use civo_csi.Base.Int64
use civo_csi.Base.Int64.{wrap}
use civo_csi.Action.{ok, err, Error, reply, is_not_exist, is_corrupted_mnt}
use civo_csi.Disk.Real.{
  System, Statfs, statistics, is_formatted, is_mounted, expand_filesystem, confirm_mounted,
  make_mountpoint, mount, require_command, mount_args,
}

module _ {W : Type 0} (sys : System W) where
  -- If RealDiskHotPlugger.Mount succeeds, then the `mount` command with the arguments for the
  -- filesystem and the flags succeeded, and IsMounted answered true for the target as the last
  -- thing.
  pub mount_seen :
      (path target fs : String) (flags : List String) (w : W)
      → (mount sys path target fs flags w).0 ≡ ok tt
      → let (done, w') =
          sys.run "mount" (mount_args fs flags path target) (make_mountpoint sys target fs w).1 in
        (done.error ≡ none)
        × ((is_mounted sys target w').0 ≡ ok true)
        × ((mount sys path target fs flags w).1 ≡ (is_mounted sys target w').1)
  unfolding mount confirm_mounted
  mount_seen path target fs flags w h = ground arith

  -- The filesystem is resized only on a path that was found to be formatted.
  pub expand_formatted :
      (path : String) (w : W)
      → (expand_filesystem sys path w).0 ≡ ok tt
      → (is_formatted sys path w).0 ≡ ok true
  unfolding expand_filesystem
  expand_formatted path w h = ground arith

  -- If `findmnt` is found, an error of RealDiskHotPlugger.IsMounted is neither one of a path that
  -- does not exist nor one of a corrupted mount.
  pub is_mounted-plain :
      (path found : String) (w : W) (e : Error)
      → (sys.look_path "findmnt" w).0 ≡ reply found
      → (is_mounted sys path w).0 ≡ err e
      → (is_not_exist e ≡ false) × (is_corrupted_mnt e ≡ false)
  unfolding is_mounted require_command
  is_mounted-plain path found w e lp h = ground arith

-- Products that fit do not wrap.
mul-pos : (a b : ℕ) → a * b < 2 ^ 63 → Int64.mul (pos a) (pos b) ≡ pos (a * b)
unfolding Int64.mul
mul-pos a b h = ground arith

wrap-pos : (a : ℕ) → a < 2 ^ 63 → wrap (pos a) ≡ pos a
unfolding wrap
wrap-pos a h = ground arith

sub-pos : (a b : ℕ) → b ≤ a → a < 2 ^ 63 → Int64.sub (pos a) (pos b) ≡ pos (a - b)
unfolding Int64.sub
sub-pos a b le h = ground arith

sub_mul-add : (t x b : ℕ) → x ≤ t → (t - x) * b + x * b ≡ t * b
sub_mul-add t x b h = grind arith

mul_le_mul : (x y b : ℕ) → x ≤ y → x * b ≤ y * b
mul_le_mul x y b h = grind arith

-- For a filesystem whose byte count and inode count fit an int64, with at most as many free blocks
-- as blocks, available blocks as free ones and free inodes as inodes, the used and the free bytes
-- are the total, the used and the available bytes are at most the total, and the used and the
-- available inodes are the total.
pub statistics_add_up :
    (s : Statfs) (b : ℕ)
    → s.bsize ≡ pos b
    → s.blocks < 2 ^ 63
    → s.blocks * b < 2 ^ 63
    → s.bavail ≤ s.bfree
    → s.bfree ≤ s.blocks
    → s.files < 2 ^ 63
    → s.ffree ≤ s.files
    → ((statistics s).used_bytes +ℤ pos (s.bfree * b) ≡ (statistics s).total_bytes)
      × ((statistics s).used_bytes +ℤ (statistics s).available_bytes ≤ℤ (statistics s).total_bytes)
      × ((statistics s).used_inodes +ℤ (statistics s).available_inodes
          ≡ (statistics s).total_inodes)
unfolding statistics
statistics_add_up s b eb fits_blocks fits avail free fits_files free_files =
    let parts = sub_mul-add s.blocks s.bfree b free in
    let more = mul_le_mul s.bavail s.bfree b avail in
    rw
      (
        eb,
        wrap-pos s.blocks fits_blocks,
        wrap-pos s.bfree (omega arith),
        wrap-pos s.bavail (omega arith),
        wrap-pos s.files fits_files,
        wrap-pos s.ffree (omega arith),
        sub-pos s.blocks s.bfree free fits_blocks,
        sub-pos s.files s.ffree free_files fits_files,
        mul-pos s.blocks b fits,
        mul-pos (s.blocks - s.bfree) b (omega arith),
        mul-pos s.bavail b (omega arith),
      )
      (omega int_laws, omega int_laws, omega int_laws)
