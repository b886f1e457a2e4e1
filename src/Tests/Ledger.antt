-- ===== src/Tests/Ledger.antt =====
-- An API whose ids are the names of its volumes, and a volume that is created and deleted.
use civo_csi.Base.{
  String, ◌==◌, ◌≡◌, ◌≢◌, refl, Option-cases, Option, none, some, List, [], ◌∷◌, map, inl, inr,
  arith, string_dec, if◌then◌else◌, ==-refl,
}
use civo_csi.Base.Int.{ℤ, pos}
use civo_csi.Base.Int64.{sub}
use civo_csi.Action.{ok, reply, failed}
use civo_csi.Api.{Volume, Clienter}
use civo_csi.Controller.Wait.{poll, wait_for_volume_status}
use civo_csi.Controller.Create.{
  create_volume_unsynced, lookup_existing_by_name, resolve_first, create_new, submit, await_created,
  check_quota, volume_response,
}
use civo_csi.Controller.Create.Names.{HoldsNames, first_named}
use civo_csi.Controller.Delete.{delete_volume}
use civo_csi.Controller.Delete.Frees.{DeletesNames, create_delete}
use civo_csi.Tests.Memory.{quiet_host, driver, quota, cluster, not_found_error}
use civo_csi.Tests.Create.{request}

-- The name and the size of each volume
abbrev Ledger : Type 0
Ledger = List (String × ℤ)

abbrev volume_of : String × ℤ → Volume
volume_of (n, s) = record {
  id = n;
  name = n;
  instance_id = "";
  size_gigabytes = s;
  status = "available";
}

abbrev listed : Ledger → String → Option (String × ℤ)
listed w n = first_named n (map volume_of w)

abbrev strike : String → Ledger → Ledger
strike n [] = []
strike n ((m, s) ∷ w) = if m == n then strike n w else (m, s) ∷ strike n w

abbrev ledger : Clienter Ledger
ledger = record {
  list_volumes = λ w. (reply (map volume_of w), w);
  get_volume = λ id w. (
    elim (listed w id) [ none ↦ failed not_found_error | some (_, s) ↦ reply (volume_of (id, s)) ],
    w,
  );
  new_volume = λ v w. (reply v.name, (v.name, v.size_gigabytes) ∷ w);
  delete_volume = λ id w. (reply tt, strike id w);
  attach_volume = λ id config w. (failed not_found_error, w);
  detach_volume = λ id w. (failed not_found_error, w);
  resize_volume = λ id n w. (failed not_found_error, w);
  get_quota = λ w. (reply quota, w);
  get_kubernetes_cluster = λ id w. (reply cluster, w);
  find_kubernetes_cluster_instance = λ id name w. (failed not_found_error, w);
  ping = λ w. (reply tt, w);
}

ledger-HoldsNames : HoldsNames quiet_host ledger listed
ledger-HoldsNames = record {
  lists = λ w vs e n. ground arith;
  gets = λ w id v e. ground arith;
  list_keeps = λ w n. refl;
  get_keeps = λ w id n. refl;
  quota_keeps = λ w n. refl;
  sleep_keeps = λ w s n. refl;
  creates = λ w v id e free. ground (arith, ==-refl v.name);
  new_keeps = λ w v n apart. ground arith;
  rejects = λ w v x n e. ground arith;
}

listed-id : (w : Ledger) (n id : String) (s : ℤ) → listed w n ≡ some (id, s) → id ≡ n
listed-id [] n id s h = ground arith
listed-id ((m, t) ∷ w) n id s h = ground (arith, listed-id w n id s)

listed-strike : (w : Ledger) (n : String) → listed (strike n w) n ≡ none
listed-strike [] n = refl
listed-strike ((m, t) ∷ w) n = ground (arith, listed-strike w n)

listed-strike_ne : (w : Ledger) (n m : String) → m ≢ n → listed (strike n w) m ≡ listed w m
listed-strike_ne [] n m apart = refl
listed-strike_ne ((k, t) ∷ w) n m apart = ground (arith, listed-strike_ne w n m apart)

-- A name that is not there is struck to no effect.
listed-strike_lacks :
    (w : Ledger) (n id : String)
    → ((s : ℤ) → listed w n ≢ some (id, s))
    → listed (strike id w) n ≡ listed w n
listed-strike_lacks w n id lacks = elim (string_dec n id) [
  | no apart ↦ listed-strike_ne w id n apart
  | yes same ↦ elim (Option-cases (listed w n)) [
    | inl e ↦ ground (arith, same, e, listed-strike w id)
    | inr ((i, s), e) ↦ ground (arith, same, e, listed-id w n i s e, lacks s)
  ]
]

ledger-DeletesNames : DeletesNames ledger listed
ledger-DeletesNames = record {
  ids_apart = λ w id n m s t h h'. ground (arith, listed-id w n id s h, listed-id w m id t h');
  deletes = λ id w n s e h. ground (arith, listed-id w n id s h, listed-strike w id);
  absent = λ id w x n s e gone. ground arith;
  delete_keeps = λ id w n lacks. listed-strike_lacks w n id lacks;
}

abbrev one_volume : Ledger
one_volume = ("pvc-2", pos 7) ∷ []

makes :
    (create_volume_unsynced quiet_host (driver ledger) request (pos 5) one_volume).0
    ≡ ok (volume_response "pvc-1" (pos 5))
unfolding create_volume_unsynced create_new submit await_created check_quota lookup_existing_by_name
    resolve_first wait_for_volume_status poll string_dec sub
makes = refl

deletes :
    (delete_volume
      (driver ledger)
      "pvc-1"
      (create_volume_unsynced quiet_host (driver ledger) request (pos 5) one_volume).1).0
    ≡ ok tt
unfolding delete_volume string_dec
deletes = refl

create_delete_example :
    listed
      (delete_volume
        (driver ledger)
        "pvc-1"
        (create_volume_unsynced quiet_host (driver ledger) request (pos 5) one_volume).1).1
      "pvc-2"
    ≡ some ("pvc-2", pos 7)
unfolding string_dec
create_delete_example =
    create_delete quiet_host (driver ledger) listed ledger-HoldsNames ledger-DeletesNames request
      (pos 5) one_volume (volume_response "pvc-1" (pos 5)) refl makes deletes "pvc-2"
