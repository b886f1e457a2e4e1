-- ===== src/Tests/Grow.antt =====
-- The polling loop and ControllerExpandVolume at concrete data.
use civo_csi.Base.{
  ℕ, suc, ◌<◌, ◌≢◌, ◌↔◌, String, ◌≡◌, refl, ◌⊎◌, true, some, List, [], ◌∷◌, arith, string_dec,
}
use civo_csi.Base.Int.{ℤ, pos}
use civo_csi.Action.{ExternalError, external, ok, err, panic, reply, failed, Reply}
use civo_csi.Api.{Volume, Clienter, writes, resized, recorded}
use civo_csi.Host.{recorded_host}
use civo_csi.Driver.{Driver, watched}
use civo_csi.Csi.{ExpandRequest, CapacityRange}
use civo_csi.Controller.Size.{get_vol_size_in_bytes, desired_gigabytes}
use civo_csi.Controller.Wait.{wait_for_volume_status}
use civo_csi.Controller.Wait.Polls.{wait_reached}
use civo_csi.Controller.Wait.Ends.{GivesUp, wait-total}
use civo_csi.Controller.Wait.Polls.{Waiting, after, answer}
use civo_csi.Controller.Expand.Calls.{LosesVolume, expand_panics, expand_writes}
use civo_csi.Controller.Expand.{controller_expand_volume}
use civo_csi.Controller.Expand.Calls.{expand_writes}
use civo_csi.Tests.Memory.{memory, quiet_host, driver, ne_of, not_found_error}

abbrev volume : String → ℤ → Volume
volume status size = record {
  id = "id-1";
  name = "pvc-1";
  instance_id = "";
  size_gigabytes = size;
  status = status;
}

-- An API over a list of answers: GetVolume takes the next, and every other call is accepted.
abbrev script : Clienter (List (Reply Volume))
script = record {
  list_volumes = λ w. (reply [], w);
  get_volume = λ id w. elim w [ [] ↦ (failed not_found_error, []) | r ∷ rs ↦ (r, rs) ];
  new_volume = λ v w. (reply "id-1", w);
  delete_volume = λ id w. (reply tt, w);
  attach_volume = λ id config w. (reply tt, w);
  detach_volume = λ id w. (reply tt, w);
  resize_volume = λ id n w. (reply tt, w);
  get_quota = λ w. (failed not_found_error, w);
  get_kubernetes_cluster = λ id w. (failed not_found_error, w);
  find_kubernetes_cluster_instance = λ id name w. (failed not_found_error, w);
  ping = λ w. (reply tt, w);
}

abbrev scripted : Driver (List (Reply Volume))
scripted = driver script

abbrev creating : Volume
creating = volume "creating" (pos 5)

abbrev available : Volume
available = volume "available" (pos 5)

wait_reached_example :
    wait_for_volume_status quiet_host scripted creating "available" 20
      (reply creating ∷ reply available ∷ [])
    ≡ (ok true, [])
unfolding string_dec
wait_reached_example =
    wait_reached quiet_host scripted creating "available" 20 1
      (reply creating ∷ reply available ∷ []) available refl (omega arith)
      ((creating, refl, ne_of "creating" "available" refl), tt) refl refl

abbrev range_9 : CapacityRange
range_9 = record { required_bytes = pos 9000000000; limit_bytes = pos 0 }

abbrev expands : ExpandRequest
expands = record { volume_id = "id-1"; capacity_range = some range_9 }

expand_writes_example :
    writes
      (controller_expand_volume
        (recorded_host quiet_host)
        (watched memory (driver (recorded memory)))
        expands
        (available ∷ [], [])).1.1
    ≡ resized "id-1" (pos 9) (reply tt) ∷ []
unfolding string_dec get_vol_size_in_bytes desired_gigabytes
expand_writes_example =
    expand_writes quiet_host memory (driver (recorded memory)) expands range_9 available
      (available ∷ []) (ne_of "id-1" "" refl) refl refl

-- The first poll reads "creating", and the second finds no answer left.
wait-total_example :
    let w : List (Reply Volume) = reply creating ∷ [] in
    ((k : ℕ) × (v : Volume) × (k < 20)
      × Waiting quiet_host script "id-1" "available" k w
      × (answer quiet_host script "id-1" k w ≡ reply v)
      × (v.status ≡ "available")
      × (wait_for_volume_status quiet_host scripted creating "available" 20 w
          ≡ (ok true, after quiet_host script "id-1" (suc k) w)))
    ⊎ ((k : ℕ) × (x : ExternalError) × (k < 20)
        × Waiting quiet_host script "id-1" "available" k w
        × (answer quiet_host script "id-1" k w ≡ failed x)
        × (wait_for_volume_status quiet_host scripted creating "available" 20 w
            ≡ (err (external x), after quiet_host script "id-1" (suc k) w)))
    ⊎ (Waiting quiet_host script "id-1" "available" 20 w
        × GivesUp quiet_host scripted creating "available" 20 w)
wait-total_example =
    wait-total quiet_host scripted creating "available" 20 (reply creating ∷ []) refl

expand_panics_example :
    let w : List (Reply Volume) = reply available ∷ reply available ∷ [] in
    ((controller_expand_volume quiet_host scripted expands w).0 ≡ panic) ↔ (
      (range : CapacityRange) × (v : Volume) × (expands.volume_id ≢ "")
      × (expands.capacity_range ≡ some range)
      × ((script.get_volume "id-1" w).0 ≡ reply v)
      × LosesVolume quiet_host scripted expands w range v)
expand_panics_example =
    expand_panics quiet_host scripted expands (reply available ∷ reply available ∷ [])
