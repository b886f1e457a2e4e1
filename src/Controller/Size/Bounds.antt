-- ===== src/Controller/Size/Bounds.antt =====
-- The rounding of a request to whole gigabytes, and the capacity that is reported for it.
use civo_csi.Base.{ℕ, ◌+◌, ◌-◌, ◌*◌, ◌/◌, ◌^◌, ◌≤◌, ◌<◌, ◌≡◌, some, arith}
use civo_csi.Base.Int.{pos, negsuc}
use civo_csi.Csi.{CapacityRange}
use civo_csi.Controller.Size.{gigabyte, get_vol_size_in_bytes, desired_gigabytes, capacity_of}

-- The number of gigabytes for `n` bytes, rounded up.
abbrev pub ceil_gigabytes : ℕ → ℕ
ceil_gigabytes n = (n + (gigabyte - 1)) / gigabyte

pub desired_gigabytes-pos :
    (n : ℕ) → n < 2 ^ 63 → desired_gigabytes (pos n) ≡ pos (ceil_gigabytes n)
unfolding desired_gigabytes
desired_gigabytes-pos n h = ground arith

capacity_of-pos : (n : ℕ) → n < 2 ^ 33 → capacity_of (pos n) ≡ pos (n * gigabyte)
unfolding capacity_of
capacity_of-pos n h = ground arith

-- A size of `n` bytes is rounded up to whole gigabytes: the capacity that stands for it holds the
-- `n` bytes and exceeds them by less than a gigabyte. No addition or product overflows.
pub capacity_of-desired_gigabytes :
    (n : ℕ)
    → n + gigabyte ≤ 2 ^ 63
    → (c : ℕ) × (capacity_of (desired_gigabytes (pos n)) ≡ pos c) × (n ≤ c) × (c < n + gigabyte)
capacity_of-desired_gigabytes n h = (
  ceil_gigabytes n * gigabyte,
  rw (desired_gigabytes-pos n (omega arith)) (capacity_of-pos (ceil_gigabytes n) (omega arith)),
  omega arith,
  omega arith,
)

-- A request for a negative number of bytes below a gigabyte asks for one gigabyte.
pub desired_gigabytes-negsuc : (n : ℕ) → n < gigabyte - 1 → desired_gigabytes (negsuc n) ≡ pos 1
unfolding desired_gigabytes
desired_gigabytes-negsuc n h = ground arith

-- The size of a request with a capacity range that names a required size.
pub get_vol_size_in_bytes-required :
    (r : CapacityRange) (n : ℕ)
    → r.required_bytes ≡ pos n
    → 0 < n
    → get_vol_size_in_bytes (some r) ≡ pos n
unfolding get_vol_size_in_bytes
get_vol_size_in_bytes-required r n e h = ground arith
