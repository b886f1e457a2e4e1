-- ===== src/Api/Recorded.antt =====
-- A client that keeps, newest first, the calls that were made through it with their answers.
use civo_csi.Base.{ℕ, String, List, [], ◌∷◌}
use civo_csi.Base.Int.{ℤ}
use civo_csi.Action.{Reply}
use civo_csi.Api.Types.{
  Volume, VolumeConfig, VolumeAttachConfig, Quota, Instance, Cluster, Clienter,
}

pub data Event : Type 0 where
  listed : Reply (List Volume) → Event
  got : String → Reply Volume → Event
  created : VolumeConfig → Reply String → Event
  deleted : String → Reply (Unit {0}) → Event
  attached : String → VolumeAttachConfig → Reply (Unit {0}) → Event
  detached : String → Reply (Unit {0}) → Event
  resized : String → ℤ → Reply (Unit {0}) → Event
  quota_read : Reply Quota → Event
  cluster_read : String → Reply Cluster → Event
  instance_found : String → String → Reply Instance → Event
  pinged : Reply (Unit {0}) → Event
  slept : ℕ → Event

-- The calls that can change what the API holds, without those that only read and the pauses.
abbrev pub writes : List Event → List Event
writes [] = []
writes (created v r ∷ es) = created v r ∷ writes es
writes (deleted id r ∷ es) = deleted id r ∷ writes es
writes (attached id v r ∷ es) = attached id v r ∷ writes es
writes (detached id r ∷ es) = detached id r ∷ writes es
writes (resized id n r ∷ es) = resized id n r ∷ writes es
writes (_ ∷ es) = writes es

abbrev pub Logged : Type 0 → Type 0
Logged W = W × List Event

abbrev log : {W A : Type 0} → (Reply A → Event) → (W → Reply A × W) → Logged W → Reply A × Logged W
log event c (w, events) = let (r, w') = c w in (r, (w', event r ∷ events))

abbrev pub recorded : {W : Type 0} → Clienter W → Clienter (Logged W)
recorded c = record {
  list_volumes = log listed c.list_volumes;
  get_volume = λ id. log (got id) (c.get_volume id);
  new_volume = λ v. log (created v) (c.new_volume v);
  delete_volume = λ id. log (deleted id) (c.delete_volume id);
  attach_volume = λ id v. log (attached id v) (c.attach_volume id v);
  detach_volume = λ id. log (detached id) (c.detach_volume id);
  resize_volume = λ id n. log (resized id n) (c.resize_volume id n);
  get_quota = log quota_read c.get_quota;
  get_kubernetes_cluster = λ id. log (cluster_read id) (c.get_kubernetes_cluster id);
  find_kubernetes_cluster_instance =
      λ id name. log (instance_found id name) (c.find_kubernetes_cluster_instance id name);
  ping = log pinged c.ping;
}
