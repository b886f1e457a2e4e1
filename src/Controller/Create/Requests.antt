-- ===== src/Controller/Create/Requests.antt =====
-- Which requests `CreateVolume` refuses before it calls the API, and what it does with the others.
use civo_csi.Base.{
  String, ℕ, ◌∙◌, ◌+◌, ◌^◌, ◌≤◌, ◌<◌, ◌≡◌, refl, some, List, [], ◌∷◌, arith, ◌==◌, Bool, true,
  false, not, ◌&&◌, ap,
}
use civo_csi.Base.Int.{ℤ, pos}
use civo_csi.Action.{Action, ok, code_of, invalid_argument, ◌>>=◌, pure}
use civo_csi.Host.{Host}
use civo_csi.Driver.{Driver, Group}
use civo_csi.Csi.{CreateVolumeRequest, CsiVolume, CapacityRange, VolumeCapability, mode_of}
use civo_csi.Controller.Size.{gigabyte, capacity_of, desired_gigabytes, get_vol_size_in_bytes}
use civo_csi.Controller.Size.Bounds.{capacity_of-desired_gigabytes, get_vol_size_in_bytes-required}
use civo_csi.Controller.Create.{
  supported_access_mode, is_block, no_capabilities, capabilities, check_capabilities, desired_size,
  create_volume_unsynced, create_volume,
}
use civo_csi.Controller.Create.Response.{create_volume_unsynced-capacity}

abbrev pub acceptable : VolumeCapability → Bool
acceptable c = supported_access_mode (mode_of c) && not (is_block c.access_type)

abbrev pub all_acceptable : List VolumeCapability → Bool
all_acceptable [] = true
all_acceptable (c ∷ cs) = acceptable c && all_acceptable cs

-- A name, at least one capability, and each of a supported mode and not a raw block device.
abbrev pub is_valid : CreateVolumeRequest → Bool
is_valid req =
    not (req.name == "")
    && (not (no_capabilities req.volume_capabilities)
        && all_acceptable (capabilities req.volume_capabilities))

-- `Do` with no other call of the key in flight: it runs the function and returns what that returns.
pub record RunsAlone {W : Type 0} (g : Group W) : Type 0 where
  pub runs :
      (key : String) (fn : Action W CsiVolume) (w : W)
      → g.do_call key fn w ≡ (fn >>= (λ v. pure (v, false))) w

module _ {W : Type 0} where
  pub check_capabilities-accepts :
      (cs : List VolumeCapability) (w : W)
      → all_acceptable cs ≡ true
      → check_capabilities cs w ≡ (ok tt, w)
  unfolding check_capabilities
  check_capabilities-accepts [] w h = refl
  check_capabilities-accepts (c ∷ cs) w h = ground (arith, check_capabilities-accepts cs w)

  check_capabilities-rejects :
      (cs : List VolumeCapability) (w : W)
      → all_acceptable cs ≡ false
      → (code_of (check_capabilities cs w).0 ≡ some invalid_argument)
        × ((check_capabilities cs w).1 ≡ w)
  unfolding check_capabilities
  check_capabilities-rejects [] w h = cc
  check_capabilities-rejects (c ∷ cs) w h = ground (arith, check_capabilities-rejects cs w)

module _ {W : Type 0} (host : Host W) (d : Driver W) (req : CreateVolumeRequest) where
  -- CreateVolume refuses a request without a name, without capabilities, or with one that is of an
  -- unsupported mode or a raw block device, with InvalidArgument, and calls nothing.
  pub create_volume-rejects :
      (w : W)
      → is_valid req ≡ false
      → (code_of (create_volume host d req w).0 ≡ some invalid_argument)
        × ((create_volume host d req w).1 ≡ w)
  unfolding create_volume
  create_volume-rejects w h = ground (
    arith,
    check_capabilities-rejects (capabilities req.volume_capabilities) w,
    check_capabilities-accepts (capabilities req.volume_capabilities) w,
  )

  -- With no other call of the name in flight, a valid request runs the body once.
  pub create_volume-runs :
      RunsAlone d.volume_create_group
      → is_valid req ≡ true
      → (w : W)
      → create_volume host d req w ≡ create_volume_unsynced host d req (desired_size req) w
  unfolding create_volume
  create_volume-runs alone h w = ground (
    arith,
    check_capabilities-accepts (capabilities req.volume_capabilities) w,
    alone.runs req.name (create_volume_unsynced host d req (desired_size req)) w,
  )

  -- With no other call of the name in flight, a volume that CreateVolume answers for a valid
  -- request of `n` bytes (more than 0, and a gigabyte or more below 2^63) holds them, and is less
  -- than a gigabyte larger.
  pub create_volume-capacity :
      RunsAlone d.volume_create_group
      → is_valid req ≡ true
      → (range : CapacityRange) (n : ℕ) → req.capacity_range ≡ some range
      → range.required_bytes ≡ pos n
      → 0 < n
      → n + gigabyte ≤ 2 ^ 63
      → (w : W) (v : CsiVolume) → (create_volume host d req w).0 ≡ ok v
      → (c : ℕ) × (v.capacity_bytes ≡ pos c) × (n ≤ c) × (c < n + gigabyte)
  create_volume-capacity alone valid range n er en lo hi w v h =
      let (c, e, above, below) = capacity_of-desired_gigabytes n hi in
      (
        c,
        create_volume_unsynced-capacity host d (desired_size req) req w v
              (rw (create_volume-runs alone valid w) at h)
            ∙ ap (λ (b : ℤ). capacity_of (desired_gigabytes b))
                (ap get_vol_size_in_bytes er ∙ get_vol_size_in_bytes-required range n en lo)
            ∙ e,
        above,
        below,
      )
