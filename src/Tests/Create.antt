-- ===== src/Tests/Create.antt =====
-- CreateVolume, DeleteVolume and the queries at concrete data.
use civo_csi.Base.{
  ℕ, ◌<◌, ◌≤◌, ◌+◌, ◌*◌, String, ◌≡◌, ◌≢◌, refl, ◌⊎◌, inr, ◌↔◌, false, some, List, [], ◌∷◌, any,
  arith, string_dec,
}
use civo_csi.Base.Int.{pos, ◌≤ℤ◌}
use civo_csi.Base.Int64.{sub, mul}
use civo_csi.Action.{ok, panic, code_of, Reply, reply, invalid_argument, already_exists}
use civo_csi.Api.{Volume, Quota, writes, created, recorded}
use civo_csi.Host.{recorded_host}
use civo_csi.Driver.{watched}
use civo_csi.Csi.{
  CreateVolumeRequest, CsiVolume, VolumeCapability, CapacityRange, ValidateRequest,
  single_node_writer, multi_node_multi_writer, mount,
}
use civo_csi.Controller.Size.{gigabyte, capacity_of, desired_gigabytes, get_vol_size_in_bytes}
use civo_csi.Controller.Wait.{poll, wait_for_volume_status}
use civo_csi.Controller.Create.{
  resolve_existing_volume, resolve_first, lookup_existing_by_name, check_quota, volume_config,
  resolve_duplicate, await_created, submit, create_new, create_volume_unsynced, create_volume,
  check_capabilities,
}
use civo_csi.Controller.Create.Response.{create_volume_unsynced-ne-panic}
use civo_csi.Controller.Create.Writes.{create_volume_unsynced-writes, HasRoom, named}
use civo_csi.Controller.Create.Requests.{create_volume-capacity, create_volume-rejects}
use civo_csi.Controller.Create.Names.Ensures.{
  create_volume_unsynced-held, create_volume_unsynced-frame,
}
use civo_csi.Controller.Query.{available_capacity, validate_volume_capabilities}
use civo_csi.Controller.Query.Quota.{capacity_iff_quota}
use civo_csi.Controller.Query.Modes.{validate_beyond_create}
use civo_csi.Tests.Memory.{
  ne_of, Cloud, memory, quiet_host, driver, held, memory-HoldsNames, quota, single_caller-RunsAlone,
}

abbrev writer : VolumeCapability
writer = record { access_mode = some single_node_writer; access_type = mount [] }

abbrev many_writers : VolumeCapability
many_writers = record { access_mode = some multi_node_multi_writer; access_type = mount [] }

abbrev range_5 : CapacityRange
range_5 = record { required_bytes = pos 5000000000; limit_bytes = pos 0 }

abbrev asks : List VolumeCapability → CreateVolumeRequest
asks caps = record {
  name = "pvc-1";
  volume_capabilities = some caps;
  capacity_range = some range_5;
}

abbrev pub request : CreateVolumeRequest
request = asks (writer ∷ [])

abbrev other_volume : Volume
other_volume = record {
  id = "id-2";
  name = "pvc-2";
  instance_id = "";
  size_gigabytes = pos 7;
  status = "available";
}

abbrev pub cloud : Cloud
cloud = other_volume ∷ []

abbrev pub response : CsiVolume
response = record { volume_id = "id-pvc-1"; capacity_bytes = pos 5368709120 }

pub creates_5 :
    (create_volume_unsynced quiet_host (driver memory) request (pos 5) cloud).0 ≡ ok response
unfolding create_volume_unsynced create_new submit await_created resolve_duplicate check_quota
    lookup_existing_by_name resolve_first resolve_existing_volume wait_for_volume_status poll
    capacity_of string_dec sub
creates_5 = refl

abbrev pub after_5 : Cloud
after_5 = (create_volume_unsynced quiet_host (driver memory) request (pos 5) cloud).1

pub creates_5_again :
    (create_volume_unsynced quiet_host (driver memory) request (pos 5) after_5).0 ≡ ok response
unfolding create_volume_unsynced create_new submit await_created resolve_duplicate check_quota
    lookup_existing_by_name resolve_first resolve_existing_volume wait_for_volume_status poll
    capacity_of string_dec sub
creates_5_again = refl

-- Another size under the same name is refused.
creates_other_size :
    code_of (create_volume_unsynced quiet_host (driver memory) request (pos 6) after_5).0
    ≡ some already_exists
unfolding create_volume_unsynced create_new submit await_created resolve_duplicate check_quota
    lookup_existing_by_name resolve_first resolve_existing_volume wait_for_volume_status poll
    capacity_of string_dec sub
creates_other_size = refl

create_volume_unsynced-held_example :
    held (create_volume_unsynced quiet_host (driver memory) request (pos 5) cloud).1 "pvc-1"
    ≡ some ("id-pvc-1", pos 5)
create_volume_unsynced-held_example =
    create_volume_unsynced-held quiet_host (driver memory) held memory-HoldsNames request (pos 5)
      cloud response creates_5

create_volume_unsynced-frame_example :
    held (create_volume_unsynced quiet_host (driver memory) request (pos 5) cloud).1 "pvc-2"
    ≡ some ("id-2", pos 7)
unfolding string_dec
create_volume_unsynced-frame_example =
    create_volume_unsynced-frame quiet_host (driver memory) held memory-HoldsNames request (pos 5)
      cloud "pvc-2" (inr (ground arith))

create_volume_unsynced-writes_example :
    let out =
      create_volume_unsynced
        (recorded_host quiet_host)
        (watched memory (driver (recorded memory)))
        request
        (pos 5)
        (cloud, []) in
    (writes out.1.1 ≡ [])
    ⊎ ((r : Reply String) × (q : Quota) × (vs : List Volume) × (writes out.1.1
          ≡ created (volume_config (watched memory (driver (recorded memory))) "pvc-1" (pos 5)) r
            ∷ [])
        × ((memory.list_volumes cloud).0 ≡ reply vs)
        × (any (named "pvc-1") vs ≡ false)
        × ((memory.get_quota (memory.list_volumes cloud).1).0 ≡ reply q)
        × HasRoom q (pos 5))
create_volume_unsynced-writes_example =
    create_volume_unsynced-writes quiet_host memory (driver (recorded memory)) request (pos 5) cloud

create_volume_unsynced-ne-panic_example :
    (create_volume_unsynced quiet_host (driver memory) request (pos 5) cloud).0 ≢ panic
create_volume_unsynced-ne-panic_example =
    create_volume_unsynced-ne-panic quiet_host (driver memory) (pos 5) request cloud

creates_bytes : (create_volume quiet_host (driver memory) request cloud).0 ≡ ok response
unfolding create_volume desired_gigabytes get_vol_size_in_bytes check_capabilities
    create_volume_unsynced create_new submit await_created resolve_duplicate check_quota
    lookup_existing_by_name resolve_first resolve_existing_volume wait_for_volume_status poll
    capacity_of string_dec sub
creates_bytes = refl

create_volume-capacity_example :
    (c : ℕ) × (response.capacity_bytes ≡ pos c) × (5000000000 ≤ c) × (c < 5000000000 + gigabyte)
unfolding string_dec
create_volume-capacity_example =
    create_volume-capacity quiet_host (driver memory) request single_caller-RunsAlone refl range_5
      5000000000 refl refl (omega arith) (omega arith) cloud response creates_bytes

create_volume-rejects_example :
    (code_of (create_volume quiet_host (driver memory) (asks (writer ∷ many_writers ∷ [])) cloud).0
      ≡ some invalid_argument)
    × ((create_volume quiet_host (driver memory) (asks (writer ∷ many_writers ∷ [])) cloud).1
        ≡ cloud)
unfolding string_dec
create_volume-rejects_example =
    create_volume-rejects quiet_host (driver memory) (asks (writer ∷ many_writers ∷ [])) cloud refl

capacity_40 : (available_capacity (driver memory) cloud).0 ≡ ok (pos 42949672960)
unfolding available_capacity sub mul
capacity_40 = refl

capacity_iff_quota_example :
    (pos (40 * gigabyte) ≤ℤ pos 42949672960)
    ↔ ((check_quota {W = Cloud} quota (pos 40) cloud).0 ≡ ok tt)
unfolding sub
capacity_iff_quota_example =
    capacity_iff_quota (driver memory) quota 40 cloud cloud (pos 42949672960) refl (ground arith)
      (ground arith) (omega arith) capacity_40

abbrev validates : ValidateRequest
validates = record { volume_id = "id-2"; volume_capabilities = some (writer ∷ many_writers ∷ []) }

validate_beyond_create_example :
    ((validate_volume_capabilities (driver memory) validates cloud).0
      ≡ ok (writer ∷ many_writers ∷ []))
    × (code_of
          (create_volume quiet_host (driver memory) (asks (writer ∷ many_writers ∷ [])) cloud).0
        ≡ some invalid_argument)
unfolding string_dec
validate_beyond_create_example =
    validate_beyond_create quiet_host (driver memory) validates (asks (writer ∷ many_writers ∷ []))
      (writer ∷ many_writers ∷ []) other_volume cloud cloud (ne_of "id-2" "" refl) refl refl refl
      refl refl
