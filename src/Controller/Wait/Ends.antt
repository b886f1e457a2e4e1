-- ===== src/Controller/Wait/Ends.antt =====
-- All the ways in which the polling loop ends.
use civo_csi.Base.{
  String, ℕ, zero, suc, ◌<◌, ◌≡◌, refl, inl, inr, ◌⊎◌, true, false, arith, string_dec,
}
use civo_csi.Action.{
  ExternalError, ok, err, panic, reply, failed, Reply-cases, external, errorf, text_arg, end,
}
use civo_csi.Api.{Volume, Clienter}
use civo_csi.Host.{Host}
use civo_csi.Driver.{Driver}
use civo_csi.Controller.Wait.{poll, wait_for_volume_status}
use civo_csi.Controller.Wait.Polls.{
  round, after, answer, Waiting, wait_reached, wait_failed, wait_timeout,
}

module _ {W : Type 0} (host : Host W) (c : Clienter W) (id : String) where
  -- The first of `n` rounds that reads the desired status or fails, if there is one.
  first_end :
      (desired : String) (n : ℕ) (w : W)
      → ((k : ℕ) × (v : Volume) × (k < n)
          × Waiting host c id desired k w
          × (answer host c id k w ≡ reply v)
          × (v.status ≡ desired))
        ⊎ ((k : ℕ) × (x : ExternalError) × (k < n)
            × Waiting host c id desired k w
            × (answer host c id k w ≡ failed x))
        ⊎ Waiting host c id desired n w
  first_end desired zero w = inr (inr tt)
  first_end desired (suc n) w = elim (Reply-cases (round host c id w).0) [
    | inr (x, e) ↦ inr (inl (0, x, omega arith, tt, e))
    | inl (v, e) ↦ elim (string_dec v.status desired) [
      | yes done ↦ inl (0, v, omega arith, tt, e, done)
      | no more ↦ elim (first_end desired n (round host c id w).1) [
        | inl (k, u, lt, h, a, s) ↦ inl (suc k, u, omega arith, ((v, e, more), h), a, s)
        | inr (inl (k, x, lt, h, a)) ↦ inr (inl (suc k, x, omega arith, ((v, e, more), h), a))
        | inr (inr h) ↦ inr (inr ((v, e, more), h))
      ]
    ]
  ]

module _ {W : Type 0} (host : Host W) (d : Driver W) (vol : Volume) (desired : String) where
  -- The polls of `n` read the volume in another status; then the wait ends in an error with the
  -- status of the last one, or, without a poll, panics.
  abbrev pub GivesUp : ℕ → W → Type 0
  GivesUp zero w = wait_for_volume_status host d vol desired zero w ≡ (panic, w)
  GivesUp (suc n) w =
      (v : Volume) × (answer host d.civo_client vol.id n w ≡ reply v)
      × (wait_for_volume_status host d vol desired (suc n) w ≡ (
        err (
            errorf "volume isn't %s, state is currently %s"
              (text_arg desired (text_arg v.status end))),
        after host d.civo_client vol.id (suc n) w,
      ))

  gives_up :
      (n : ℕ) (w : W)
      → d.test_mode ≡ false
      → Waiting host d.civo_client vol.id desired n w
      → GivesUp n w
  unfolding wait_for_volume_status poll
  gives_up zero w t h = rw t refl
  gives_up (suc n) w t h = wait_timeout host d vol desired n w t h

  -- Outside test mode, for any number of retries, the wait ends in one of three ways. Some poll reads
  -- the desired status after all polls before it read another one: then it ends there with true.
  -- Some poll fails after all polls before it read another status: then it ends there with the error
  -- of that poll. All polls read another status: then it ends in an error that names the status that
  -- was read last, or panics if the number of retries is zero.
  pub wait-total :
      (retries : ℕ) (w : W)
      → d.test_mode ≡ false
      → ((k : ℕ) × (v : Volume) × (k < retries)
          × Waiting host d.civo_client vol.id desired k w
          × (answer host d.civo_client vol.id k w ≡ reply v)
          × (v.status ≡ desired)
          × (wait_for_volume_status host d vol desired retries w
              ≡ (ok true, after host d.civo_client vol.id (suc k) w)))
        ⊎ ((k : ℕ) × (x : ExternalError) × (k < retries)
            × Waiting host d.civo_client vol.id desired k w
            × (answer host d.civo_client vol.id k w ≡ failed x)
            × (wait_for_volume_status host d vol desired retries w
                ≡ (err (external x), after host d.civo_client vol.id (suc k) w)))
        ⊎ (Waiting host d.civo_client vol.id desired retries w × GivesUp retries w)
  wait-total retries w t = elim (first_end host d.civo_client vol.id desired retries w) [
    | inl (k, v, lt, h, a, s) ↦
        inl (k, v, lt, h, a, s, wait_reached host d vol desired retries k w v t lt h a s)
    | inr (inl (k, x, lt, h, a)) ↦
        inr (inl (k, x, lt, h, a, wait_failed host d vol desired retries k w x t lt h a))
    | inr (inr h) ↦ inr (inr (h, gives_up retries w t h))
  ]
