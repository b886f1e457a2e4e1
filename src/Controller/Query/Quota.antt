-- ===== src/Controller/Query/Quota.antt =====
-- `GetCapacity` against the quota check of `CreateVolume`.
use civo_csi.Base.{ℕ, ◌*◌, ◌^◌, ◌≤◌, ◌<◌, ◌≡◌, ◌↔◌, arith}
use civo_csi.Base.Int.{ℤ, pos, negsuc, pos_part, neg_part, ◌≤ℤ◌}
use civo_csi.Base.Int64.{sub, mul}
use civo_csi.Action.{ok, reply}
use civo_csi.Api.{Quota}
use civo_csi.Driver.{Driver}
use civo_csi.Controller.Size.{gigabyte, bytes_in_gigabyte}
use civo_csi.Controller.Create.{check_quota}
use civo_csi.Controller.Query.{available_capacity}

-- The product by a gigabyte, where it does not overflow.
mul-gigabyte :
    (a : ℤ)
    → pos_part a < 2 ^ 33
    → neg_part a ≤ 2 ^ 33
    → (pos_part (mul a bytes_in_gigabyte) ≡ pos_part a * gigabyte)
      × (neg_part (mul a bytes_in_gigabyte) ≡ neg_part a * gigabyte)
unfolding mul
mul-gigabyte (pos n) lo hi = ground arith
mul-gigabyte (negsuc n) lo hi = ground arith

module _ {W : Type 0} (d : Driver W) where
  -- For a quota whose free space is between -2^33 and 2^33 gigabytes, a volume of `n` gigabytes,
  -- more than 0, passes the quota check exactly if GetCapacity answers at least its size.
  pub capacity_iff_quota :
      (q : Quota) (n : ℕ) (w w' : W) (c : ℤ)
      → (d.civo_client.get_quota w).0 ≡ reply q
      → pos_part (sub q.disk_gigabytes_limit q.disk_gigabytes_usage) < 2 ^ 33
      → neg_part (sub q.disk_gigabytes_limit q.disk_gigabytes_usage) ≤ 2 ^ 33
      → 0 < n
      → (available_capacity d w).0 ≡ ok c
      → (pos (n * gigabyte) ≤ℤ c) ↔ ((check_quota q (pos n) w').0 ≡ ok tt)
  unfolding available_capacity check_quota
  capacity_iff_quota q n w w' c eq lo hi pos_n ec =
      let free = sub q.disk_gigabytes_limit q.disk_gigabytes_usage in
      (
        λ fits. ground (arith, mul-gigabyte free lo hi),
        λ passes. ground (arith, mul-gigabyte free lo hi),
      )
