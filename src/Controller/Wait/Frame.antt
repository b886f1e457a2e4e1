-- ===== src/Controller/Wait/Frame.antt =====
-- The polling loop reads the volume and pauses, and calls nothing else.
use civo_csi.Base.{String, ℕ, zero, suc, ◌≡◌, refl, Option, none, some, inl, inr, arith, Bool-cases}
use civo_csi.Action.{Reply-cases}
use civo_csi.Api.{Volume, Clienter, Logged, writes}
use civo_csi.Host.{Host, recorded_host}
use civo_csi.Driver.{Driver, watched}
use civo_csi.Controller.Wait.{poll, wait_for_volume_status}

module _ {W : Type 0} (host : Host W) (c : Clienter W) (d : Driver (Logged W)) where
  writes-poll :
      (n : ℕ) (last : Option Volume) (id desired : String) (w : Logged W)
      → writes (poll (recorded_host host) (watched c d) n last id desired w).1.1 ≡ writes w.1
  unfolding poll
  writes-poll zero none id desired w = refl
  writes-poll zero (some v) id desired w = refl
  writes-poll (suc n) last id desired w =
      elim (Reply-cases (c.get_volume id (host.sleep 5 w.0)).0) [
        | inl (v, e) ↦ ground (
          arith,
          writes-poll n (some v) id desired
              ((watched c d).civo_client.get_volume id ((recorded_host host).sleep 5 w)).1,
        )
        | inr (x, e) ↦ ground arith
      ]

  pub writes-wait :
      (vol : Volume) (desired : String) (retries : ℕ) (w : Logged W)
      → writes (wait_for_volume_status (recorded_host host) (watched c d) vol desired retries w).1.1
        ≡ writes w.1
  unfolding wait_for_volume_status
  writes-wait vol desired retries w = elim (Bool-cases d.test_mode) [
    | inl t ↦ rw t
    | inr t ↦ rw t (writes-poll retries none vol.id desired w)
  ]
