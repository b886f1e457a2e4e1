-- ===== src/Hook/Wait/Ends.antt =====
-- When the wait of `PreStop` can end, and what does not end it.
use civo_csi.Base.{String, ◌≡◌, refl, inl, true, false, none, arith}
use civo_csi.Hook.{VolumeAttachment, Kubernetes}
use civo_csi.Hook.PreStop.{waits, volume_attachment, pre_stop_start, first_check}
use civo_csi.Hook.Wait.{Waiting, begin, handled, Reach, next, PreStops, after_wait, after_event}
use civo_csi.Hook.Wait.Cleared.{is_clear, handler_iff}

module _ {W : Type 0} (k : Kubernetes W) (node : String) (moves : W → W → Type 0) where
  -- Wherever the wait has got to, an event of an attachment of the node that finds no attachment of
  -- it left lets PreStop return nil.
  pub wait_ends :
      (w w₁ w₂ : W) (s t : Waiting W) (a : VolumeAttachment)
      → pre_stop_start k node w ≡ (waits, w₁)
      → Reach k node moves (begin w₁) s
      → first_check k node s.world ≡ (waits, w₂)
      → Reach k node moves (record s { world = w₂ }) t
      → a.node_name ≡ node
      → is_clear node (k.list_volume_attachments t.world).0 ≡ true
      → PreStops k node moves w none t.done (after_event k node moves (volume_attachment a) t).world
  wait_ends w w₁ w₂ s t a start before checked after at clear =
      let stops = (handler_iff k node (volume_attachment a) t.world).1 (a, refl, at, clear) in
      after_wait w₁ w₂ s (after_event k node moves (volume_attachment a) t) start before checked
        (next after (handled t (volume_attachment a))) (inl (ground arith))

  -- Ticks, and moves of the rest of the world
  pub data Quiet (s : Waiting W) : Waiting W → Type 0 where
    start_quiet : Quiet s s
    tick : {t : Waiting W} → Quiet s t → Quiet s t
    move : {t : Waiting W} (w : W) → Quiet s t → moves t.world w → Quiet s (record t { world = w })

  -- While no event arrives and the context is not done, the wait cannot end, whatever becomes of the
  -- attachments in the meantime: the ticker does not look at them.
  pub ticks_wait :
      {s t : Waiting W}
      → s.stopped ≡ false
      → s.done ≡ false
      → Quiet s t
      → (t.stopped ≡ false) × (t.done ≡ false)
  ticks_wait stopped done start_quiet = (stopped, done)
  ticks_wait stopped done (tick q) = ticks_wait stopped done q
  ticks_wait stopped done (move w q m) = ticks_wait stopped done q
