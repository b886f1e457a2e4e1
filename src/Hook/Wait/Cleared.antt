-- ===== src/Hook/Wait/Cleared.antt =====
-- What `PreStop` has seen of the cluster when it returns nil.
use civo_csi.Base.{
  String, ◌≡◌, ◌≢◌, refl, ap, ◌⊎◌, ◌↔◌, inl, inr, ◌==◌, any, Bool, true, false, not, Option, none,
  List, [], ◌∷◌, arith, Bool-cases,
}
use civo_csi.Action.{Reply, reply, failed, Error, Reply-cases}
use civo_csi.Hook.{VolumeAttachment, Kubernetes}
use civo_csi.Hook.PreStop.{
  Object, Start, waits, volume_attachment, other_object, returns, is_node_drained, remaining,
  check_volume_attachments_exist, volume_attachment_event_handler, wait_start, first_check,
  pre_stop_start,
}
use civo_csi.Hook.Wait.{
  Waiting, begin, Step, handled, ticked, ended, moved, Reach, here, next, PreStops, at_start,
  after_check, after_wait,
}

-- A world with the answers of the calls that listed the attachments, newest first
abbrev pub Listings : Type 0 → Type 0
Listings W = W × List (Reply (List VolumeAttachment))

abbrev pub recorded_kubernetes : {W : Type 0} → Kubernetes W → Kubernetes (Listings W)
recorded_kubernetes k = record {
  get_node = λ name (w, seen). let (r, w') = k.get_node name w in (r, (w', seen));
  list_volume_attachments =
      λ (w, seen). let (r, w') = k.list_volume_attachments w in (r, (w', r ∷ seen));
  add_event_handler = λ (w, seen). let (r, w') = k.add_event_handler w in (r, (w', seen));
}

-- The rest of the world changes, and what was listed stays.
abbrev pub Elsewhere : {W : Type 0} → Listings W → Listings W → Type 0
Elsewhere (w, seen) (w', seen') = seen ≡ seen'

abbrev pub on_node : String → VolumeAttachment → Bool
on_node node a = a.node_name == node

abbrev node_of : Object → String
node_of (volume_attachment a) = a.node_name
node_of other_object = ""

-- The list has no attachment of the node.
abbrev pub is_clear : String → Reply (List VolumeAttachment) → Bool
is_clear node (reply items) = not (any (on_node node) items)
is_clear node (failed _) = false

-- One of the lists that were read had no attachment of the node.
abbrev pub saw_clear : {W : Type 0} → String → Listings W → Bool
saw_clear node (w, seen) = any (is_clear node) seen

module _ {W : Type 0} (k : Kubernetes W) (node : String) where
  remaining-none :
      (items : List VolumeAttachment)
      → (remaining k node items).1 ≡ none
      → any (on_node node) items ≡ false
  remaining-none [] h = refl
  remaining-none (a ∷ items) h = ground (arith, remaining-none items)

  remaining-clear :
      (items : List VolumeAttachment)
      → any (on_node node) items ≡ false
      → (remaining k node items).1 ≡ none
  remaining-clear [] h = refl
  remaining-clear (a ∷ items) h = ground (arith, remaining-clear items)

  -- checkVolumeAttachmentsExist returns nil only if the list that it read is clear.
  check-clear :
      (w : Listings W)
      → (check_volume_attachments_exist (recorded_kubernetes k) node w).0.1 ≡ none
      → saw_clear node (check_volume_attachments_exist (recorded_kubernetes k) node w).1 ≡ true
  unfolding check_volume_attachments_exist
  check-clear w h = elim (Reply-cases (k.list_volume_attachments w.0).0) [
    | inl (items, e) ↦ ground (arith, remaining-none items)
    | inr (x, e) ↦ ground arith
  ]

  check-keeps :
      (w : Listings W)
      → saw_clear node w ≡ true
      → saw_clear node (check_volume_attachments_exist (recorded_kubernetes k) node w).1 ≡ true
  unfolding check_volume_attachments_exist
  check-keeps w h = ground arith

  -- The informer's channel is closed only after a clear list was read.
  handler-clear :
      (o : Object) (w : Listings W)
      → (volume_attachment_event_handler (recorded_kubernetes k) node o w).0.1 ≡ true
      → saw_clear node (volume_attachment_event_handler (recorded_kubernetes k) node o w).1 ≡ true
  unfolding volume_attachment_event_handler
  handler-clear other_object w h = ground arith
  handler-clear (volume_attachment a) w h = ground (arith, check-clear w)

  handler-keeps :
      (o : Object) (w : Listings W)
      → saw_clear node w ≡ true
      → saw_clear node (volume_attachment_event_handler (recorded_kubernetes k) node o w).1 ≡ true
  unfolding volume_attachment_event_handler
  handler-keeps other_object w h = ground arith
  handler-keeps (volume_attachment a) w h = ground (arith, check-keeps w)

  -- A closed channel means that a clear list was read.
  abbrev IsSound : Waiting (Listings W) → Type 0
  IsSound s = s.stopped ≡ true → saw_clear node s.world ≡ true

  Step-IsSound :
      {s t : Waiting (Listings W)}
      → Step (recorded_kubernetes k) node Elsewhere s t
      → IsSound s
      → IsSound t
  Step-IsSound (handled s o) sound =
      λ h. ground (arith, handler-clear o s.world, handler-keeps o s.world)
  Step-IsSound (ticked s) sound = sound
  Step-IsSound (ended s) sound = sound
  Step-IsSound (moved s w same) sound = λ h. ground arith

  Reach-IsSound :
      {s t : Waiting (Listings W)}
      → IsSound s
      → Reach (recorded_kubernetes k) node Elsewhere s t
      → IsSound t
  Reach-IsSound h here = h
  Reach-IsSound h (next r st) = Step-IsSound st (Reach-IsSound h r)

  first_check-clear :
      (w w' : Listings W)
      → first_check (recorded_kubernetes k) node w ≡ (returns none, w')
      → saw_clear node w' ≡ true
  unfolding first_check
  first_check-clear w w' h =
      let answer = ap (λ (p : Start × Listings W). p.0) h in
      let world = ap (λ (p : Start × Listings W). p.1) h in ground (arith, check-clear w)

  first_check-keeps :
      (w w' : Listings W) (next_part : Start)
      → saw_clear node w ≡ true
      → first_check (recorded_kubernetes k) node w ≡ (next_part, w')
      → saw_clear node w' ≡ true
  unfolding first_check
  first_check-keeps w w' next_part h e =
      let world = ap (λ (p : Start × Listings W). p.1) e in ground (arith, check-keeps w)

  -- Before the first check, the wait returns only with an error.
  wait_start-ne : (w : Listings W) → (wait_start (recorded_kubernetes k) node w).0 ≢ returns none
  unfolding wait_start
  wait_start-ne w = elim (Reply-cases (k.add_event_handler w.0).0) [
    | inl (_, e) ↦ λ h. ground arith
    | inr (x, e) ↦ λ h. ground arith
  ]

  pre_stop_ends :
      {e : Option Error} {done : Bool} {w' : Listings W} (w : W)
      → PreStops (recorded_kubernetes k) node Elsewhere (w, []) e done w'
      → e ≡ none
      → done ≡ false
      → ((taints : List String) × ((k.get_node node w).0 ≡ reply taints)
          × (is_node_drained taints ≡ false))
        ⊎ (saw_clear node w' ≡ true)
  unfolding pre_stop_start
  pre_stop_ends w (at_start _ w' start) nil live =
      let answer = ap (λ (p : Start × Listings W). p.0) start in
      let w₁ : Listings W = ((k.get_node node w).1, []) in
      elim (Reply-cases (k.get_node node w).0) [
        | inl (taints, et) ↦ elim (Bool-cases (is_node_drained taints)) [
          | inl drained ↦ ground (arith, wait_start-ne w₁)
          | inr calm ↦ inl (taints, et, calm)
        ]
        | inr (x, ex) ↦ ground (arith, wait_start-ne w₁)
      ]
  pre_stop_ends w (after_check _ w₁ w' s start r checked) nil live =
      inr (first_check-clear s.world w' (ground arith))
  pre_stop_ends w (after_wait w₁ w₂ s t start before checked after closed) nil live =
      let sound_s = Reach-IsSound {s = begin w₁} (λ h. ground arith) before in
      let sound : IsSound (record s { world = w₂ }) =
        λ h. first_check-keeps s.world w₂ waits (sound_s h) checked in
      inr (Reach-IsSound sound after (ground arith))

  -- If PreStop returns nil and its context is not done, then the node is there and is not being
  -- drained, or a list of the volume attachments was read that had none of the node.
  pub pre_stop_clear :
      (w : W) (w' : Listings W)
      → PreStops (recorded_kubernetes k) node Elsewhere (w, []) none false w'
      → ((taints : List String) × ((k.get_node node w).0 ≡ reply taints)
          × (is_node_drained taints ≡ false))
        ⊎ (saw_clear node w' ≡ true)
  unfolding pre_stop_start
  pre_stop_clear w w' p = pre_stop_ends w p refl refl

  -- The handler of an event closes the channel exactly if the event is of an attachment of the node
  -- and the list that is read then has none of the node.
  pub handler_iff :
      (o : Object) (w : W)
      → ((volume_attachment_event_handler k node o w).0.1 ≡ true) ↔ (
          (a : VolumeAttachment) × (o ≡ volume_attachment a)
          × (a.node_name ≡ node)
          × (is_clear node (k.list_volume_attachments w).0 ≡ true))
  unfolding volume_attachment_event_handler check_volume_attachments_exist
  handler_iff other_object w = (λ h. ground arith, λ (a, e, _, _). ground arith)
  handler_iff (volume_attachment a) w = elim (Reply-cases (k.list_volume_attachments w).0) [
    | inl (items, e) ↦ (
      λ h. (a, refl, ground arith, ground (arith, remaining-none items)),
      λ (b, same, at, clear). ground (arith, ap node_of same, remaining-clear items),
    )
    | inr (x, e) ↦ (λ h. ground arith, λ (b, same, at, clear). ground arith)
  ]
