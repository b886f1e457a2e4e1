-- ===== src/Tests/Names.antt =====
-- Sequences of CreateVolume, and ListVolumes after it, at concrete data.
use civo_csi.Base.{◌≡◌, ◌≢◌, refl, true, some, arith, List, [], ◌∷◌, any, string_dec}
use civo_csi.Base.Int.{pos}
use civo_csi.Action.{ok}
use civo_csi.Csi.{CsiVolume, CreateVolumeRequest}
use civo_csi.Driver.{Driver}
use civo_csi.Controller.Size.{capacity_of, get_vol_size_in_bytes, desired_gigabytes}
use civo_csi.Controller.Create.{
  create_volume, desired_size, check_quota, create_volume_unsynced, lookup_existing_by_name,
  resolve_first, create_new, submit, await_created,
}
use civo_csi.Controller.Wait.{poll, wait_for_volume_status}
use civo_csi.Base.Int64.{sub}
use civo_csi.Controller.Create.Names.Sequences.{Creates, start, then_create, creates_agree}
use civo_csi.Controller.Create.Shared.{joined_ignores_size}
use civo_csi.Controller.Query.{list_all}
use civo_csi.Controller.Query.Listing.{list_shows_created, is_entry}
use civo_csi.Tests.Memory.{Cloud, memory, quiet_host, driver, held, memory-HoldsNames}
use civo_csi.Tests.Create.{request, cloud, response, after_5, creates_5}

-- After the first response, the same name is asked for with another size, and once more.
abbrev between :
    Creates quiet_host
      (driver memory)
      after_5
      (create_volume_unsynced quiet_host (driver memory) request (pos 6) after_5).1
between = then_create request (pos 6) start

creates_after_6 :
    (create_volume_unsynced quiet_host
      (driver memory)
      request
      (pos 5)
      (create_volume_unsynced quiet_host (driver memory) request (pos 6) after_5).1).0
    ≡ ok response
unfolding create_volume_unsynced lookup_existing_by_name resolve_first string_dec create_new sub
    submit await_created wait_for_volume_status capacity_of
creates_after_6 = refl

creates_agree_example : response ≡ response
creates_agree_example =
    creates_agree quiet_host (driver memory) held memory-HoldsNames request (pos 5) cloud response
      response creates_5 between creates_after_6

abbrev entries : List CsiVolume
entries = record { volume_id = "id-2"; capacity_bytes = pos 7516192768 } ∷ response ∷ []

lists_5 : (list_all (driver memory) "" after_5).0 ≡ ok entries
unfolding list_all create_volume_unsynced lookup_existing_by_name resolve_first string_dec
    create_new sub submit await_created wait_for_volume_status capacity_of
lists_5 = refl

list_shows_created_example : any (is_entry response) entries ≡ true
list_shows_created_example =
    list_shows_created quiet_host (driver memory) held memory-HoldsNames request (pos 5) cloud
      response entries creates_5 lists_5

-- A group in which the name is in flight, and its call returns the response.
abbrev joining : Driver Cloud
joining = record (driver memory) {
  volume_create_group = record { do_call = λ key fn w. (ok (response, true), w) };
}

abbrev request_9 : CreateVolumeRequest
request_9 = record request {
  capacity_range = some (record { required_bytes = pos 9000000000; limit_bytes = pos 0 });
}

creates_first :
    (create_volume_unsynced quiet_host joining request (desired_size request) cloud).0 ≡ ok response
unfolding create_volume_unsynced create_new submit await_created check_quota desired_gigabytes
    lookup_existing_by_name resolve_first wait_for_volume_status poll get_vol_size_in_bytes
    capacity_of string_dec sub
creates_first = refl

other_size : desired_size request_9 ≢ desired_size request
unfolding desired_gigabytes get_vol_size_in_bytes
other_size h = ground (arith, h)

joined_ignores_size_example :
    let w = (create_volume_unsynced quiet_host joining request (desired_size request) cloud).1 in
    ((create_volume quiet_host joining request_9 w).0 ≡ ok response)
    × ¬ (
        (s : CsiVolume) × ((create_volume_unsynced quiet_host joining request_9
            (desired_size request_9)
            w).0
          ≡ ok s))
unfolding string_dec
joined_ignores_size_example =
    joined_ignores_size quiet_host joining held memory-HoldsNames request request_9 response cloud
      refl other_size refl creates_first (record { joins = λ fn. refl })
