-- ===== src/Controller/Query/Listing.antt =====
-- `ListVolumes` after `CreateVolume`.
use civo_csi.Base.{
  String, ◌≡◌, ◌∙◌, some, Option, List, [], ◌∷◌, map, any, inl, inr, arith, ◌==◌, ==-refl, Bool,
  true, ◌&&◌,
}
use civo_csi.Base.Int.{ℤ, eqb_ℤ}
use civo_csi.Action.{ok, Reply-cases}
use civo_csi.Api.{Volume}
use civo_csi.Host.{Host}
use civo_csi.Driver.{Driver}
use civo_csi.Csi.{CreateVolumeRequest, CsiVolume}
use civo_csi.Controller.Create.{create_volume_unsynced, volume_response}
use civo_csi.Controller.Create.Response.{create_volume_unsynced-capacity}
use civo_csi.Controller.Create.Names.{HoldsNames, first_named}
use civo_csi.Controller.Create.Names.Ensures.{create_volume_unsynced-held}
use civo_csi.Controller.Query.{list_all}

abbrev pub is_entry : CsiVolume → CsiVolume → Bool
is_entry r e = e.volume_id == r.volume_id && eqb_ℤ e.capacity_bytes r.capacity_bytes

abbrev entry : Volume → CsiVolume
entry v = volume_response v.id v.size_gigabytes

first_named-entry :
    (n : String) (vs : List Volume) (id : String) (size : ℤ)
    → first_named n vs ≡ some (id, size)
    → any (is_entry (volume_response id size)) (map entry vs) ≡ true
first_named-entry n [] id size h = ground arith
first_named-entry n (v ∷ vs) id size h = ground (arith, first_named-entry n vs id size, ==-refl id)

module _ {W : Type 0} (host : Host W) (d : Driver W) (held : W → String → Option (String × ℤ))
    (laws : HoldsNames host d.civo_client held) where
  -- Over an API that keeps names, after a response of createVolumeUnsynced ListVolumes, if it
  -- succeeds, lists a volume with the id and the capacity of the response.
  pub list_shows_created :
      (req : CreateVolumeRequest) (size : ℤ) (w : W) (r : CsiVolume) (entries : List CsiVolume)
      → (create_volume_unsynced host d req size w).0 ≡ ok r
      → (list_all d "" (create_volume_unsynced host d req size w).1).0 ≡ ok entries
      → any (is_entry r) entries ≡ true
  unfolding list_all
  list_shows_created req size w r entries h listed =
      let w' = (create_volume_unsynced host d req size w).1 in
      elim (Reply-cases (d.civo_client.list_volumes w').0) [
        | inl (vs, e) ↦ ground (
          arith,
          first_named-entry req.name vs r.volume_id size (
              laws.lists w' vs e req.name
              ∙ create_volume_unsynced-held host d held laws req size w r h),
          create_volume_unsynced-capacity host d size req w r h,
        )
        | inr (x, e) ↦ ground arith
      ]
