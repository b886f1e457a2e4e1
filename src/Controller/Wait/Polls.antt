-- ===== src/Controller/Wait/Polls.antt =====
-- What the polling loop returns, from the answers that the client gives round by round.
use civo_csi.Base.{
  String, ℕ, zero, suc, ◌<◌, ◌≡◌, refl, ◌≢◌, ◌==◌, inl, inr, ◌⊎◌, Bool-cases, Option, none, some,
  true, false, arith,
}
use civo_csi.Action.{
  Error, ExternalError, ok, err, Reply, reply, failed, ◌>>=◌, Reply-cases, external, errorf,
  text_arg, end,
}
use civo_csi.Api.{Volume, Clienter}
use civo_csi.Host.{Host}
use civo_csi.Driver.{Driver}
use civo_csi.Controller.Wait.{poll, wait_for_volume_status}

module _ {W : Type 0} (host : Host W) (c : Clienter W) (id : String) where
  -- The answer of a round that starts in this world, and the world after it.
  abbrev pub round : W → Reply Volume × W
  round w = c.get_volume id (host.sleep 5 w)

  abbrev pub after : ℕ → W → W
  after zero w = w
  after (suc k) w = after k (round w).1

  -- The answer of round `k`, counted from 0.
  abbrev pub answer : ℕ → W → Reply Volume
  answer zero w = (round w).0
  answer (suc k) w = answer k (round w).1

  -- In each of the first `k` rounds the volume was read, in another status.
  abbrev pub Waiting : String → ℕ → W → Type 0
  Waiting desired zero w = Unit
  Waiting desired (suc k) w =
      ((v : Volume) × ((round w).0 ≡ reply v) × (v.status ≢ desired))
      × Waiting desired k (round w).1

module _ {W : Type 0} (host : Host W) (d : Driver W) (id desired : String) where
  abbrev Still : ℕ → W → Type 0
  Still = Waiting host d.civo_client id desired

  -- The first round in which the status is the desired one ends the loop.
  poll_reached :
      (k n : ℕ) (last : Option Volume) (w : W) (v : Volume)
      → k < n
      → Still k w
      → answer host d.civo_client id k w ≡ reply v
      → v.status ≡ desired
      → poll host d n last id desired w ≡ (ok true, after host d.civo_client id (suc k) w)
  unfolding poll
  poll_reached k zero last w v lt h e s = absurd (omega arith)
  poll_reached zero (suc n) last w v lt h e s = ground arith
  poll_reached (suc k) (suc n) last w v lt h e s =
      ground (arith, poll_reached k n (some (h.0).0) (round host d.civo_client id w).1 v)

  poll_failed :
      (k n : ℕ) (last : Option Volume) (w : W) (x : ExternalError)
      → k < n
      → Still k w
      → answer host d.civo_client id k w ≡ failed x
      → poll host d n last id desired w ≡ (err (external x), after host d.civo_client id (suc k) w)
  unfolding poll
  poll_failed k zero last w x lt h e = absurd (omega arith)
  poll_failed zero (suc n) last w x lt h e = ground arith
  poll_failed (suc k) (suc n) last w x lt h e =
      ground (arith, poll_failed k n (some (h.0).0) (round host d.civo_client id w).1 x)

  abbrev timed_out : Volume → Error
  timed_out v =
      errorf "volume isn't %s, state is currently %s" (text_arg desired (text_arg v.status end))

  poll_timeout :
      (n : ℕ) (last : Option Volume) (w : W)
      → Still (suc n) w
      → (v : Volume) × (answer host d.civo_client id n w ≡ reply v)
        × (poll host d (suc n) last id desired w
            ≡ (err (timed_out v), after host d.civo_client id (suc n) w))
  unfolding poll
  poll_timeout zero last w ((v, e, ne), h) = (v, e, ground arith)
  poll_timeout (suc n) last w ((v, e, ne), h) =
      let (u, a, p) = poll_timeout n (some v) (round host d.civo_client id w).1 h in
      (u, a, ground arith)

  poll-total :
      (n : ℕ) (last : Volume) (w : W)
      → ((poll host d n (some last) id desired w).0 ≡ ok true)
        ⊎ ((e : Error) × ((poll host d n (some last) id desired w).0 ≡ err e))
  unfolding poll
  poll-total zero last w = inr (timed_out last, refl)
  poll-total (suc n) last w = elim (Reply-cases (round host d.civo_client id w).0) [
    | inr (x, e) ↦ inr (external x, ground arith)
    | inl (v, e) ↦ elim (Bool-cases (v.status == desired)) [
      | inl done ↦ inl (ground arith)
      | inr more ↦ rw (e, ◌>>=◌, more) (poll-total n v (round host d.civo_client id w).1)
    ]
  ]

module _ {W : Type 0} (host : Host W) (d : Driver W) (vol : Volume) (desired : String) where
  -- Outside test mode, if the first `k` polls (of at most `retries`, one each five seconds) read the
  -- volume in another status and poll `k` reads it in the desired one, the wait ends there with
  -- true.
  pub wait_reached :
      (retries k : ℕ) (w : W) (v : Volume)
      → d.test_mode ≡ false
      → k < retries
      → Waiting host d.civo_client vol.id desired k w
      → answer host d.civo_client vol.id k w ≡ reply v
      → v.status ≡ desired
      → wait_for_volume_status host d vol desired retries w
        ≡ (ok true, after host d.civo_client vol.id (suc k) w)
  unfolding wait_for_volume_status
  wait_reached retries k w v t lt h e s =
      rw t (poll_reached host d vol.id desired k retries none w v lt h e s)

  -- Outside test mode, the first poll that fails ends the wait with its error.
  pub wait_failed :
      (retries k : ℕ) (w : W) (x : ExternalError)
      → d.test_mode ≡ false
      → k < retries
      → Waiting host d.civo_client vol.id desired k w
      → answer host d.civo_client vol.id k w ≡ failed x
      → wait_for_volume_status host d vol desired retries w
        ≡ (err (external x), after host d.civo_client vol.id (suc k) w)
  unfolding wait_for_volume_status
  wait_failed retries k w x t lt h e =
      rw t (poll_failed host d vol.id desired k retries none w x lt h e)

  -- Outside test mode, if all of the `suc n` polls read the volume in another status, the wait makes
  -- exactly those polls and ends in an error that names the status of the last one.
  pub wait_timeout :
      (n : ℕ) (w : W)
      → d.test_mode ≡ false
      → Waiting host d.civo_client vol.id desired (suc n) w
      → (v : Volume) × (answer host d.civo_client vol.id n w ≡ reply v)
        × (wait_for_volume_status host d vol desired (suc n) w ≡ (
          err (
              errorf "volume isn't %s, state is currently %s"
                (text_arg desired (text_arg v.status end))),
          after host d.civo_client vol.id (suc n) w,
        ))
  unfolding wait_for_volume_status
  wait_timeout n w t h =
      let (v, a, p) = poll_timeout host d vol.id desired n none w h in (v, a, ground arith)

  -- With at least one try the wait answers true or an error.
  pub wait_answers :
      (n : ℕ) (w : W)
      → ((wait_for_volume_status host d vol desired (suc n) w).0 ≡ ok true)
        ⊎ ((e : Error) × ((wait_for_volume_status host d vol desired (suc n) w).0 ≡ err e))
  unfolding wait_for_volume_status poll
  wait_answers n w = elim (Bool-cases d.test_mode) [
    | inl t ↦ inl (rw t)
    | inr t ↦ rw t (poll-total host d vol.id desired (suc n) vol w)
  ]
