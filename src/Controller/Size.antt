-- ===== src/Controller/Size.antt =====
-- `BytesInGigabyte`, `getVolSizeInBytes`, and the rounding that CreateVolume and
-- ControllerExpandVolume share.
pub mod Bounds
use civo_csi.Base.{ℕ, ◌*◌, Option, none, some, if◌then◌else◌}
use civo_csi.Base.Int.{ℤ, pos, eqb_ℤ, quot, rem}
use civo_csi.Base.Int64.{add, mul}
use civo_csi.Csi.{CapacityRange}
use civo_csi.Driver.{default_volume_size_gb}

abbrev pub gigabyte : ℕ
gigabyte = 1024 * 1024 * 1024

abbrev pub bytes_in_gigabyte : ℤ
bytes_in_gigabyte = pos gigabyte

-- The error that the Go function returns beside the size is always nil.
unfoldable pub get_vol_size_in_bytes : Option CapacityRange → ℤ
unfolding mul
get_vol_size_in_bytes none = mul default_volume_size_gb bytes_in_gigabyte
get_vol_size_in_bytes (some r) =
    if eqb_ℤ r.required_bytes (pos 0) then r.limit_bytes else r.required_bytes

-- desiredSize := bytes / BytesInGigabyte; if (bytes % BytesInGigabyte) != 0 { desiredSize++ }
unfoldable pub desired_gigabytes : ℤ → ℤ
unfolding quot rem add
desired_gigabytes bytes =
    let size = quot bytes gigabyte in
    if eqb_ℤ (rem bytes gigabyte) (pos 0) then size else add size (pos 1)

unfoldable pub capacity_of : ℤ → ℤ
unfolding mul
capacity_of size = mul size bytes_in_gigabyte
