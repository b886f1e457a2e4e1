-- ===== src/Hook/PreStop.antt =====
-- pkg/driver/hook/prestop.go: the functions, up to the loop that waits.
use civo_csi.Base.{
  String, ◌==◌, any, Bool, true, false, Option, none, some, List, [], ◌∷◌, if◌then◌else◌,
}
use civo_csi.Action.{reply, failed, Error, external, errorf, wrapped, end, text_arg}
use civo_csi.Hook.{VolumeAttachment, Kubernetes}

-- v1.TaintNodeUnschedulable, the one key of `drainTaints`
abbrev pub is_drain_taint : String → Bool
is_drain_taint key = key == "node.kubernetes.io/unschedulable"

abbrev pub is_node_drained : List String → Bool
is_node_drained taints = any is_drain_taint taints

-- The object of an event: a VolumeAttachment, or a value of another type.
pub data Object : Type 0 where
  volume_attachment : VolumeAttachment → Object
  other_object : Object

-- What a part of the function comes to: it returns, with an error or nil, or it goes on.
pub data Start : Type 0 where
  returns : Option Error → Start
  waits : Start

module _ {W : Type 0} (k : Kubernetes W) (node_name : String) where
  -- The loop over the attachments. Both results matter: an attachment that remains is `true` with
  -- an error.
  abbrev pub remaining : List VolumeAttachment → Bool × Option Error
  remaining [] = (false, none)
  remaining (at ∷ rest) =
      if at.node_name == node_name
      then (
        true,
        some
            (errorf "VolumeAttachment resource %q has not been deleted yet" (text_arg at.name end)),
      )
      else remaining rest

  unfoldable pub check_volume_attachments_exist : W → (Bool × Option Error) × W
  check_volume_attachments_exist w =
      let (r, w') = k.list_volume_attachments w in
      (elim r [ failed e ↦ (false, some (external e)) | reply items ↦ remaining items ], w')

  -- The error, and whether `stopEventFn` was called
  unfoldable pub volume_attachment_event_handler : Object → W → (Option Error × Bool) × W
  unfolding check_volume_attachments_exist
  volume_attachment_event_handler other_object w =
      ((some (errorf "received an object that is not a VolumeAttachment" end), false), w)
  volume_attachment_event_handler (volume_attachment va) w =
      if va.node_name == node_name
      then (let ((exists, e), w') = check_volume_attachments_exist w in
          (elim e [ some x ↦ (some x, false) | none ↦ (none, true) ], w'))
      else ((none, false), w)

  -- The handler is added, and the informer runs from here on.
  unfoldable pub wait_start : W → Start × W
  wait_start w =
      let (added, w') = k.add_event_handler w in
      (
        elim added [
          | failed x ↦ returns (
              some (wrapped "failed to create event handler for VolumeAttachment: %w" (external x)))
          | reply _ ↦ waits
        ],
        w',
      )

  -- The check beside the running informer, before the loop
  unfoldable pub first_check : W → Start × W
  unfolding check_volume_attachments_exist
  first_check w =
      let ((exists, e), w') = check_volume_attachments_exist w in
      (
        elim e [
          | none ↦ returns none
          | some x ↦
              if exists
              then waits
              else returns
                  (some (wrapped "failed to check the existence of VolumeAttachments: %w" x))
        ],
        w',
      )

  unfoldable pub pre_stop_start : W → Start × W
  unfolding wait_start
  pre_stop_start w =
      let (r, w') = k.get_node node_name w in
      elim r [
        | failed e ↦ if e.is_not_found then wait_start w' else (returns (some (external e)), w')
        | reply taints ↦ if is_node_drained taints then wait_start w' else (returns none, w')
      ]
