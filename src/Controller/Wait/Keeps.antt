-- ===== src/Controller/Wait/Keeps.antt =====
-- What reading a volume and sleeping keep, the wait keeps.
use civo_csi.Base.{String, ℕ, zero, suc, ◌≡◌, refl, Option, none, some, inl, inr, arith}
use civo_csi.Action.{Reply-cases}
use civo_csi.Api.{Volume}
use civo_csi.Host.{Host}
use civo_csi.Driver.{Driver}
use civo_csi.Controller.Wait.{poll, wait_for_volume_status}

module _ {W A : Type 0} (host : Host W) (d : Driver W) (seen : W → A)
    (get_keeps : (id : String) (w : W) → seen (d.civo_client.get_volume id w).1 ≡ seen w)
    (sleep_keeps : (s : ℕ) (w : W) → seen (host.sleep s w) ≡ seen w) where
  poll_keeps :
      (n : ℕ) (last : Option Volume) (id desired : String) (w : W)
      → seen (poll host d n last id desired w).1 ≡ seen w
  unfolding poll
  poll_keeps zero none id desired w = refl
  poll_keeps zero (some v) id desired w = refl
  poll_keeps (suc n) last id desired w =
      let w₁ = host.sleep 5 w in
      let w₂ = (d.civo_client.get_volume id w₁).1 in
      elim (Reply-cases (d.civo_client.get_volume id w₁).0) [
        | inl (v, e) ↦
            ground (arith, get_keeps id w₁, sleep_keeps 5 w, poll_keeps n (some v) id desired w₂)
        | inr (x, e) ↦ ground (arith, get_keeps id w₁, sleep_keeps 5 w)
      ]

  pub wait_keeps :
      (v : Volume) (desired : String) (retries : ℕ) (w : W)
      → seen (wait_for_volume_status host d v desired retries w).1 ≡ seen w
  unfolding wait_for_volume_status
  wait_keeps v desired retries w = ground (arith, poll_keeps retries none v.id desired w)
