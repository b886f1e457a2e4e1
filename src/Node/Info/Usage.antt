-- ===== src/Node/Info/Usage.antt =====
-- `NodeGetVolumeStats` with the real disk plugger, over a filesystem whose counts make sense.
use mathlib.Core.Path.{subst}
use civo_csi.Base.{ℕ, ◌<◌, ◌≤◌, ◌*◌, ◌^◌, ◌≡◌, inl, inr, List, [], ◌∷◌, arith}
use civo_csi.Base.Int.{pos, ◌+ℤ◌, ◌≤ℤ◌, int_laws}
use civo_csi.Action.{ok, reply, Reply-cases, Outcome-cases}
use civo_csi.Csi.{PathRequest, VolumeUsage}
use civo_csi.Driver.{Driver}
use civo_csi.Disk.Contract.{Mounts}
use civo_csi.Disk.Real.{System, Statfs, statistics, get_statistics, is_mounted, real_disk}
use civo_csi.Disk.Real.Contract.{is_mounted-shows}
use civo_csi.Disk.Real.Manual.{KeepsMountTable}
use civo_csi.Disk.Real.Checks.{statistics_add_up}
use civo_csi.Node.Info.{node_get_volume_stats, usage}

-- The counts of a filesystem that fits an int64
pub record IsConsistent (s : Statfs) : Type 0 where
  pub block_size : ℕ
  pub is_block_size : s.bsize ≡ pos block_size
  pub blocks_fit : s.blocks < 2 ^ 63
  pub bytes_fit : s.blocks * block_size < 2 ^ 63
  pub available_free : s.bavail ≤ s.bfree
  pub free_there : s.bfree ≤ s.blocks
  pub inodes_fit : s.files < 2 ^ 63
  pub inodes_free : s.ffree ≤ s.files

-- In each entry, what is used and what is available do not exceed the total.
abbrev pub AddUp : List VolumeUsage → Type 0
AddUp [] = Unit {0}
AddUp (u ∷ us) = (u.used +ℤ u.available ≤ℤ u.total) × AddUp us

usage-AddUp : (s : Statfs) → IsConsistent s → AddUp (usage (statistics s))
usage-AddUp s c =
    let (exact, bytes_within, inodes_exact) =
      statistics_add_up s c.block_size c.is_block_size c.blocks_fit c.bytes_fit c.available_free
        c.free_there c.inodes_fit c.inodes_free in
    (bytes_within, (rw inodes_exact (omega int_laws), tt))

module _ {W : Type 0} (sys : System W) (mounts : W → Mounts) (keeps : KeepsMountTable sys mounts)
    (d : Driver W) where
  -- With the real disk plugger, on a system whose commands do to the mounts what their manuals say
  -- and whose filesystem at the path has consistent counts that fit an int64, a NodeGetVolumeStats
  -- that succeeds was asked for a path that is mounted, and in each entry of its answer what is used
  -- and what is available do not exceed the total.
  pub node_stats-AddUp :
      (req : PathRequest) (w : W) (us : List VolumeUsage)
      → ((x : W) (s : Statfs) → (sys.statfs req.volume_path x).0 ≡ reply s → IsConsistent s)
      → (node_get_volume_stats (record d { disk_hot_plugger = real_disk sys }) req w).0 ≡ ok us
      → (0 < mounts w req.volume_path) × AddUp us
  unfolding node_get_volume_stats get_statistics
  node_stats-AddUp req w us consistent h =
      let path = req.volume_path in
      let (o, w₁) = is_mounted sys path w in
      let (r, w₂) = sys.statfs path w₁ in
      elim (Outcome-cases o) [
        | inr (inl (x, e)) ↦ ground arith
        | inr (inr e) ↦ ground arith
        | inl (b, e) ↦ elim (Reply-cases r) [
          | inr (x, e') ↦ ground arith
          | inl (s, e') ↦
              let answer : usage (statistics s) ≡ us = ground arith in
              (
                ground (arith, is_mounted-shows sys mounts keeps path w),
                subst AddUp answer (usage-AddUp s (consistent w₁ s e')),
              )
        ]
      ]
