-- ===== src/Base/Int64.antt =====
-- Go's `int64`, and `int` on the 64-bit platforms that the images are built for: an integer whose
-- arithmetic wraps around to -2^63 .. 2^63 - 1.
use civo_csi.Base.Tests.{ltb, if◌then◌else◌}
use Prim.Native.Nat.{◌-◌, ◌%◌, ◌^◌, ◌≤◌, ◌<◌}
use mathlib.Core.Path.{◌≡◌}
use native.Mathlib.Omega.{arith}
use civo_csi.Base.Int.{ℤ, pos, negsuc, pos_part, neg_part, ◌+ℤ◌, ◌-ℤ◌, ◌*ℤ◌}

unfoldable pub wrap : ℤ → ℤ
wrap (pos n) = let m = n % 2 ^ 64 in if ltb m (2 ^ 63) then pos m else negsuc (2 ^ 64 - m - 1)
wrap (negsuc n) = let m = n % 2 ^ 64 in if ltb m (2 ^ 63) then negsuc m else pos (2 ^ 64 - m - 1)

-- The integers that the type can hold.
pub record IsInt64 (a : ℤ) : Type 0 where
  pub above : neg_part a ≤ 2 ^ 63
  pub below : pos_part a < 2 ^ 63

unfoldable pub add : ℤ → ℤ → ℤ
unfolding wrap ◌+ℤ◌
add a b = wrap (a +ℤ b)

unfoldable pub sub : ℤ → ℤ → ℤ
unfolding wrap ◌-ℤ◌
sub a b = wrap (a -ℤ b)

unfoldable pub mul : ℤ → ℤ → ℤ
unfolding wrap ◌*ℤ◌
mul a b = wrap (a *ℤ b)

pub wrap-IsInt64 : (a : ℤ) → IsInt64 (wrap a)
unfolding wrap
wrap-IsInt64 (pos n) = ground arith
wrap-IsInt64 (negsuc n) = ground arith

-- A value in range is left alone.
pub wrap_lem : (a : ℤ) → IsInt64 a → wrap a ≡ a
unfolding wrap
wrap_lem (pos n) h = ground arith
wrap_lem (negsuc n) h = ground arith

pub sub-wrap : (a b : ℤ) → IsInt64 (a -ℤ b) → sub a b ≡ a -ℤ b
unfolding sub
sub-wrap a b h = wrap_lem (a -ℤ b) h

pub add-wrap : (a b : ℤ) → IsInt64 (a +ℤ b) → add a b ≡ a +ℤ b
unfolding add
add-wrap a b h = wrap_lem (a +ℤ b) h
