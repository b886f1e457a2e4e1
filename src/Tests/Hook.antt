-- ===== src/Tests/Hook.antt =====
-- The hook at concrete data: a cluster is its volume attachments.
use civo_csi.Base.{
  String, ◌≡◌, refl, ◌⊎◌, ◌↔◌, inl, true, false, none, some, List, [], ◌∷◌, map, string_dec,
}
use civo_csi.Action.{ok, reply, failed}
use civo_csi.Hook.{VolumeAttachment, Kubernetes, Hook, ClientLibrary, new_hook, with_node_name}
use civo_csi.Hook.PreStop.{
  volume_attachment, waits, is_node_drained, pre_stop_start, wait_start, first_check,
  volume_attachment_event_handler,
}
use civo_csi.Hook.Wait.{
  Waiting, begin, handled, moved, Reach, here, next, PreStops, after_wait, after_event,
}
use civo_csi.Hook.Wait.Ends.{wait_ends}
use civo_csi.Hook.Wait.Cleared.{
  Listings, recorded_kubernetes, Elsewhere, saw_clear, is_clear, pre_stop_clear, handler_iff,
}
use civo_csi.Tests.Memory.{not_found_error}

abbrev Attachments : Type 0
Attachments = List VolumeAttachment

-- The node is gone.
abbrev kubernetes : Kubernetes Attachments
kubernetes = record {
  get_node = λ name w. (reply ("node.kubernetes.io/unschedulable" ∷ []), w);
  list_volume_attachments = λ w. (reply w, w);
  add_event_handler = λ w. (reply tt, w);
}

abbrev attachment : VolumeAttachment
attachment = record { name = "csi-1"; node_name = "node-1" }

abbrev added : Listings Attachments
added = (attachment ∷ [], [])

abbrev checked : Listings Attachments
checked = (attachment ∷ [], reply (attachment ∷ []) ∷ [])

abbrev detached : Waiting (Listings Attachments)
detached = record { world = ([], checked.1); stopped = false; done = false }

abbrev stopped : Waiting (Listings Attachments)
stopped =
    after_event (recorded_kubernetes kubernetes) "node-1" Elsewhere (volume_attachment attachment)
      detached

starts : pre_stop_start (recorded_kubernetes kubernetes) "node-1" added ≡ (waits, added)
unfolding pre_stop_start wait_start string_dec
starts = refl

checks : first_check (recorded_kubernetes kubernetes) "node-1" added ≡ (waits, checked)
unfolding first_check string_dec
checks = refl

-- The attachment goes, and the event of its deletion arrives.
waited : Reach (recorded_kubernetes kubernetes) "node-1" Elsewhere (begin checked) stopped
waited =
    next (next here (moved (begin checked) ([], checked.1) refl))
      (handled detached (volume_attachment attachment))

ended_run :
    PreStops
      (recorded_kubernetes kubernetes)
      "node-1"
      Elsewhere
      added
      none
      false
      ([], reply [] ∷ reply (attachment ∷ []) ∷ [])
unfolding volume_attachment_event_handler string_dec
ended_run = after_wait added checked (begin added) stopped starts here checks waited (inl refl)

pre_stop_clear_example :
    ((taints : List String) × ((kubernetes.get_node "node-1" (attachment ∷ [])).0 ≡ reply taints)
      × (is_node_drained taints ≡ false))
    ⊎ (saw_clear {W = Attachments} "node-1" ([], reply [] ∷ reply (attachment ∷ []) ∷ []) ≡ true)
pre_stop_clear_example =
    pre_stop_clear kubernetes "node-1" (attachment ∷ [])
      ([], reply [] ∷ reply (attachment ∷ []) ∷ []) ended_run

handler_iff_example :
    ((volume_attachment_event_handler kubernetes "node-1" (volume_attachment attachment) []).0.1
      ≡ true)
    ↔ ((a : VolumeAttachment) × (volume_attachment attachment ≡ volume_attachment a)
        × (a.node_name ≡ "node-1")
        × (is_clear "node-1" (kubernetes.list_volume_attachments []).0 ≡ true))
handler_iff_example = handler_iff kubernetes "node-1" (volume_attachment attachment) []

abbrev library : ClientLibrary Attachments
library = record {
  Config = Unit;
  build_config_from_flags = λ path w. (failed not_found_error, w);
  in_cluster_config = λ w. (reply tt, w);
  new_for_config = λ config w. (reply kubernetes, w);
}

abbrev hook : Hook Attachments
hook = record { client = some kubernetes; node_name = "node-2"; client_cfg_path = "" }

makes_hook : (new_hook library "node-1" (map with_node_name ("" ∷ "node-2" ∷ [])) []).0 ≡ ok hook
unfolding new_hook string_dec
makes_hook = refl

-- The event of the deletion arrives once the attachment is gone.
wait_ends_example :
    PreStops
      (recorded_kubernetes kubernetes)
      "node-1"
      Elsewhere
      added
      none
      false
      (after_event
        (recorded_kubernetes kubernetes)
        "node-1"
        Elsewhere
        (volume_attachment attachment)
        detached).world
unfolding string_dec
wait_ends_example =
    wait_ends (recorded_kubernetes kubernetes) "node-1" Elsewhere added added checked (begin added)
      detached attachment starts here checks
      (next here (moved (begin checked) ([], checked.1) refl)) refl refl
