-- ===== src/Hook/Wait.antt =====
-- pkg/driver/hook/prestop.go: the loop of `waitForVolumeAttachmentsCleanup` with the informer that
-- runs beside it, as steps, and the results of `PreStop`.
pub mod Cleared
pub mod Ends
use civo_csi.Base.{String, ◌≡◌, ◌⊎◌, Bool, true, false, ◌||◌, Option, none, some}
use civo_csi.Action.{Error}
use civo_csi.Hook.{Kubernetes}
use civo_csi.Hook.PreStop.{
  Object, Start, returns, waits, volume_attachment_event_handler, pre_stop_start, first_check,
}

-- The world, whether `informerCh` is closed, and whether the context is done
pub record Waiting (W : Type 0) : Type 0 where
  pub world : W
  pub stopped : Bool
  pub done : Bool

abbrev pub begin : {W : Type 0} → W → Waiting W
begin w = record { world = w; stopped = false; done = false }

module _ {W : Type 0} (k : Kubernetes W) (node_name : String) (moves : W → W → Type 0) where
  -- The handler of an event, whose error is only logged.
  abbrev pub after_event : Object → Waiting W → Waiting W
  after_event o s =
      let ((e, stop), w) = volume_attachment_event_handler k node_name o s.world in
      record s { world = w; stopped = s.stopped || stop }

  -- An event reaches DeleteFunc or UpdateFunc, the ticker
  -- ticks; the context ends; or the world moves by itself.
  pub data Step : Waiting W → Waiting W → Type 0 where
    handled : (s : Waiting W) (o : Object) → Step s (after_event o s)
    ticked : (s : Waiting W) → Step s s
    ended : (s : Waiting W) → Step s (record s { done = true })
    moved : (s : Waiting W) (w : W) → moves s.world w → Step s (record s { world = w })

  pub data Reach (s : Waiting W) : Waiting W → Type 0 where
    here : Reach s s
    next : {t u : Waiting W} → Reach s t → Step t u → Reach s u

  -- `PreStop` from a world, with the informer running before and after the first check: its result, whether the context was done, and the world then. The
  -- select of the loop returns nil once the channel is closed or the context is done.
  pub data PreStops (w : W) : Option Error → Bool → W → Type 0 where
    at_start :
        (e : Option Error) (w' : W)
        → pre_stop_start k node_name w ≡ (returns e, w')
        → PreStops w e false w'
    after_check :
        (e : Option Error) (w₁ w' : W) (s : Waiting W)
        → pre_stop_start k node_name w ≡ (waits, w₁)
        → Reach (begin w₁) s
        → first_check k node_name s.world ≡ (returns e, w')
        → PreStops w e s.done w'
    after_wait :
        (w₁ w₂ : W) (s t : Waiting W)
        → pre_stop_start k node_name w ≡ (waits, w₁)
        → Reach (begin w₁) s
        → first_check k node_name s.world ≡ (waits, w₂)
        → Reach (record s { world = w₂ }) t
        → (t.stopped ≡ true) ⊎ (t.done ≡ true)
        → PreStops w none t.done t.world
