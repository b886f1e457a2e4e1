-- ===== src/Controller/Create/Shared.antt =====
-- A CreateVolume that joins another call of the same name.
use civo_csi.Base.{String, ◌≡◌, ◌≢◌, ap, Option, inr, true, arith}
use civo_csi.Base.Int.{ℤ}
use civo_csi.Action.{Action, Outcome, ok}
use civo_csi.Host.{Host}
use civo_csi.Driver.{Driver, Group}
use civo_csi.Csi.{CreateVolumeRequest, CsiVolume}
use civo_csi.Controller.Create.{capabilities, desired_size, create_volume_unsynced, create_volume}
use civo_csi.Controller.Create.Requests.{is_valid, check_capabilities-accepts}
use civo_csi.Controller.Create.Names.{HoldsNames}
use civo_csi.Controller.Create.Names.Ensures.{
  create_volume_unsynced-held, create_volume_unsynced-frame,
}

-- `Do` for a key that is in flight: it runs nothing and returns what the call in flight returned.
pub record Joins {W : Type 0} (g : Group W) (key : String) (r : CsiVolume) (w : W) : Type 0 where
  pub joins : (fn : Action W CsiVolume) → g.do_call key fn w ≡ (ok (r, true), w)

module _ {W : Type 0} (host : Host W) (d : Driver W) where
  join_shares :
      (req : CreateVolumeRequest) (r : CsiVolume) (w : W)
      → is_valid req ≡ true
      → Joins d.volume_create_group req.name r w
      → create_volume host d req w ≡ (ok r, w)
  unfolding create_volume
  join_shares req r w valid j = ground (
    arith,
    check_capabilities-accepts (capabilities req.volume_capabilities) w,
    j.joins (create_volume_unsynced host d req (desired_size req)),
  )

  -- Over an API that keeps names, a valid request of another size that joins a call of the same name
  -- gets the volume of that call, with the other size; made after that call it gets no volume.
  pub joined_ignores_size :
      (held : W → String → Option (String × ℤ)) (laws : HoldsNames host d.civo_client held)
      (first second : CreateVolumeRequest) (r : CsiVolume) (w : W)
      → second.name ≡ first.name
      → desired_size second ≢ desired_size first
      → is_valid second ≡ true
      → (create_volume_unsynced host d first (desired_size first) w).0 ≡ ok r
      → Joins d.volume_create_group second.name r
          (create_volume_unsynced host d first (desired_size first) w).1
      → let w' = (create_volume_unsynced host d first (desired_size first) w).1 in
        ((create_volume host d second w').0 ≡ ok r)
        × ¬ (
            (s : CsiVolume) × ((create_volume_unsynced host d second (desired_size second) w').0
              ≡ ok s))
  joined_ignores_size held laws first second r w same other valid made j =
      let w' = (create_volume_unsynced host d first (desired_size first) w).1 in
      let has = create_volume_unsynced-held host d held laws first (desired_size first) w r made in
      (
        ap (λ (p : Outcome CsiVolume × W). p.0) (join_shares second r w' valid j),
        λ (s, h). ground (
          arith,
          same,
          has,
          create_volume_unsynced-held host d held laws second (desired_size second) w' s h,
          create_volume_unsynced-frame host d held laws second (desired_size second) w' second.name
              (inr (ground arith)),
        ),
      )
