-- ===== src/Tests/Places.antt =====
-- Sequences of calls that attach, detach and expand volumes of the API of Tests/Memory.
use civo_csi.Base.{
  ℕ, String, ◌==◌, ◌≡◌, ◌≢◌, refl, ◌⊎◌, inl, inr, Bool-cases, Option, none, some, List, [], ◌∷◌,
  arith, string_dec,
}
use civo_csi.Base.Int.{ℤ, pos}
use civo_csi.Action.{ok, Reply, reply, failed}
use civo_csi.Api.{Volume}
use civo_csi.Csi.{PublishRequest, UnpublishRequest, ExpandRequest, single_node_writer, mount}
use civo_csi.Controller.Publish.{attach_found, confirm_attached, controller_publish_volume}
use civo_csi.Controller.Places.{Places, KeepsPlaces, AttachCall, publish, unpublish, run_attach}
use civo_csi.Controller.Unpublish.{controller_unpublish_volume, detach_found, confirm_available}
use civo_csi.Controller.Places.Frees.{TellsMissing, unpublished_frees}
use civo_csi.Controller.Places.Stays.{published_stays, published_once}
use civo_csi.Controller.Size.{capacity_of, get_vol_size_in_bytes, desired_gigabytes}
use civo_csi.Controller.Wait.{poll, wait_for_volume_status}
use civo_csi.Controller.Expand.{
  controller_expand_volume, expand_found, resize, read_resized, expand_response,
}
use civo_csi.Controller.Expand.Sizes.{Sizes, KeepsSizes, AtLeast}
use civo_csi.Controller.Expand.Grows.{run_expand, expands_grow, expand_shows}
use civo_csi.Tests.Memory.{Cloud, memory, quiet_host, driver, find_volume, update, ne_of}

module _ (f : Volume → Volume) (same_id : (v : Volume) → (f v).id ≡ v.id) where
  find_volume-update_ne :
      (id : String) (w : Cloud) (u : String)
      → u ≢ id
      → find_volume u (update id f w) ≡ find_volume u w
  find_volume-update_ne id [] u apart = refl
  find_volume-update_ne id (v ∷ w) u apart =
      ground (arith, same_id v, find_volume-update_ne id w u apart)

abbrev place : Reply Volume → Option (String × String)
place (reply v) = some (v.instance_id, v.status)
place (failed _) = none

abbrev placed : Cloud → Places
placed w id = place (find_volume id w)

-- The API keeps the laws of an API that only this driver uses.
memory-KeepsPlaces : KeepsPlaces quiet_host memory placed
memory-KeepsPlaces = record {
  cluster_keeps = λ id w v. refl;
  get_keeps = λ id w v. refl;
  reads = λ id w v e. ground arith;
  attach_elsewhere = λ id config w v apart. ground (
    arith,
    find_volume-update_ne (λ u. record u { instance_id = config.instance_id; status = "attached" })
        (λ u. refl) id w v apart,
  );
  detach_elsewhere = λ id w v apart. ground (
    arith,
    find_volume-update_ne (λ u. record u { instance_id = ""; status = "available" }) (λ u. refl) id
        w v apart,
  );
  sleep_keeps = λ n w v node h. h;
}

abbrev volume : String → String → String → Volume
volume id node status = record {
  id = id;
  name = id;
  instance_id = node;
  size_gigabytes = pos 7;
  status = status;
}

abbrev two_free : Cloud
two_free = volume "id-1" "" "available" ∷ volume "id-2" "" "available" ∷ []

abbrev to_node : String → String → PublishRequest
to_node id node = record {
  volume_id = id;
  node_id = node;
  volume_capability =
      some (record { access_mode = some single_node_writer; access_type = mount [] });
}

-- Another node asks for the volume, another volume comes to the node and leaves it.
abbrev meanwhile : List AttachCall
meanwhile =
    publish (to_node "id-1" "node-2")
    ∷ publish (to_node "id-2" "node-1")
    ∷ unpublish (record { volume_id = "id-2"; node_id = "node-1" })
    ∷ []

published :
    (controller_publish_volume quiet_host (driver memory) (to_node "id-1" "node-1") two_free).0
    ≡ ok tt
unfolding controller_publish_volume attach_found confirm_attached string_dec
published = refl

published_stays_example :
    placed
      (run_attach quiet_host
        (driver memory)
        (publish (to_node "id-1" "node-1") ∷ meanwhile)
        two_free)
      "id-1"
    ≡ some ("node-1", "attached")
unfolding string_dec
published_stays_example =
    published_stays quiet_host (driver memory) placed memory-KeepsPlaces (to_node "id-1" "node-1")
      meanwhile two_free published refl

published_once_example :
    (controller_publish_volume quiet_host (driver memory) (to_node "id-1" "node-2") (
      run_attach quiet_host
        (driver memory)
        (publish (to_node "id-1" "node-1") ∷ meanwhile)
        two_free)).0
    ≢ ok tt
unfolding string_dec
published_once_example =
    published_once quiet_host (driver memory) placed memory-KeepsPlaces (to_node "id-1" "node-1")
      (to_node "id-1" "node-2") meanwhile two_free refl (ne_of "node-2" "node-1" refl) published
      refl

memory-TellsMissing : TellsMissing memory placed
memory-TellsMissing = record { missing = λ id w x e gone. ground arith }

abbrev one_attached : Cloud
one_attached = volume "id-1" "node-1" "attached" ∷ []

abbrev leaves : UnpublishRequest
leaves = record { volume_id = "id-1"; node_id = "node-1" }

unpublished : (controller_unpublish_volume quiet_host (driver memory) leaves one_attached).0 ≡ ok tt
unfolding controller_unpublish_volume detach_found confirm_available string_dec
unpublished = refl

unpublished_frees_example :
    placed (controller_unpublish_volume quiet_host (driver memory) leaves one_attached).1 "id-1"
    ≢ some ("node-1", "attached")
unpublished_frees_example =
    unpublished_frees quiet_host (driver memory) placed memory-KeepsPlaces memory-TellsMissing
      leaves one_attached unpublished

abbrev size_of : Reply Volume → Option ℤ
size_of (reply v) = some v.size_gigabytes
size_of (failed _) = none

abbrev sized : Cloud → Sizes
sized w id = size_of (find_volume id w)

sized-update :
    (id : String) (n : ℤ) (w : Cloud)
    → (sized (update id (λ v. record v { size_gigabytes = n }) w) id ≡ sized w id)
      ⊎ (sized (update id (λ v. record v { size_gigabytes = n }) w) id ≡ some n)
sized-update id n [] = inl refl
sized-update id n (v ∷ w) = elim (Bool-cases (v.id == id)) [
  | inl here ↦ inr (ground arith)
  | inr there ↦ elim (sized-update id n w) [
    | inl kept ↦ inl (ground (arith, kept))
    | inr set ↦ inr (ground (arith, set))
  ]
]

memory-KeepsSizes : KeepsSizes quiet_host memory sized
memory-KeepsSizes = record {
  get_keeps = λ id w v. refl;
  sleep_keeps = λ n w v. refl;
  reads = λ id w v e. ground arith;
  resize_sets = sized-update;
  resize_elsewhere = λ id n w v apart. ground (
    arith,
    find_volume-update_ne (λ u. record u { size_gigabytes = n }) (λ u. refl) id w v apart,
  );
}

abbrev to_size : String → ℕ → ExpandRequest
to_size id n = record {
  volume_id = id;
  capacity_range = some (record { required_bytes = pos n; limit_bytes = pos 0 });
}

-- The second call asks for less than there is then.
expands_grow_example : AtLeast (pos 7) (
    sized
      (run_expand quiet_host
        (driver memory)
        (to_size "id-1" 9000000000 ∷ to_size "id-1" 3000000000 ∷ [])
        two_free)
      "id-1")
unfolding string_dec
expands_grow_example =
    expands_grow quiet_host (driver memory) sized memory-KeepsSizes
      (to_size "id-1" 9000000000 ∷ to_size "id-1" 3000000000 ∷ []) two_free "id-1" (pos 7) refl

expands_9 :
    (controller_expand_volume quiet_host (driver memory) (to_size "id-1" 9000000000) two_free).0
    ≡ ok (expand_response (pos 9))
unfolding controller_expand_volume expand_found resize read_resized string_dec get_vol_size_in_bytes
    desired_gigabytes wait_for_volume_status poll
expands_9 = refl

expand_shows_example :
    let out =
      controller_expand_volume quiet_host (driver memory) (to_size "id-1" 9000000000) two_free in
    (b : ℤ) × (sized out.1 "id-1" ≡ some b)
    × ((expand_response (pos 9)).capacity_bytes ≡ capacity_of b)
expand_shows_example =
    expand_shows quiet_host (driver memory) sized memory-KeepsSizes (to_size "id-1" 9000000000)
      two_free (expand_response (pos 9)) expands_9
