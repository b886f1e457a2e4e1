-- ===== src/Controller/Wait.antt =====
-- `waitForVolumeStatus`
pub mod Polls
pub mod Ends
pub mod Frame
pub mod Keeps
use civo_csi.Base.{String, ℕ, zero, suc, ◌==◌, Option, none, some, true, false, Bool, if◌then◌else◌}
use civo_csi.Action.{
  Action, Outcome, panic, err, errorf, text_arg, end, ◌>>=◌, ◌>>◌, pure, raise, call, effect,
}
use civo_csi.Api.{Volume}
use civo_csi.Host.{Host}
use civo_csi.Driver.{Driver}

module _ {W : Type 0} (host : Host W) (d : Driver W) where
  -- The message after the loop reads `v.Status`, which panics while `v` is nil.
  abbrev give_up : Option Volume → String → Action W Bool
  give_up none desired w = (panic, w)
  give_up (some v) desired w = (
    err (
        errorf "volume isn't %s, state is currently %s" (text_arg desired (text_arg v.status end))),
    w,
  )

  -- The loop, with the rounds that are left and the last volume that was read.
  unfoldable pub poll : ℕ → Option Volume → String → String → Action W Bool
  poll zero last id desired = give_up last desired
  poll (suc n) last id desired = do
    effect (host.sleep 5)
    v ← call (d.civo_client.get_volume id)
    elim (v.status == desired) [ true ↦ pure true | false ↦ poll n (some v) id desired ]

  unfoldable pub wait_for_volume_status : Volume → String → ℕ → Action W Bool
  unfolding poll
  wait_for_volume_status vol desired retries =
      if d.test_mode then pure true else poll retries none vol.id desired
