-- ===== src/Tests/Memory.antt =====
-- The API as a list of volumes, and a driver over it. Nothing happens while the driver sleeps.
use civo_csi.Base.{
  String, ◌<>◌, ◌==◌, ◌≡◌, ◌≢◌, refl, ==-refl, true, false, Option, none, some, List, [], ◌∷◌, ◌++◌,
  map, if◌then◌else◌, arith,
}
use civo_csi.Base.Int.{ℤ, pos}
use civo_csi.Action.{Reply, reply, failed, ExternalError, ok, panic, ◌>>=◌, pure}
use civo_csi.Api.{Volume, VolumeConfig, Quota, Cluster, Clienter}
use civo_csi.Disk.{DiskHotPlugger}
use civo_csi.Host.{Host}
use civo_csi.Driver.{Driver, Group}
use civo_csi.Controller.Create.Names.{HoldsNames, first_named}
use civo_csi.Controller.Create.Requests.{RunsAlone}

abbrev pub Cloud : Type 0
Cloud = List Volume

abbrev pub not_found_error : ExternalError
not_found_error = record {
  text = "DatabaseVolumeNotFoundError: volume not found";
  is_duplicate_name = false;
  is_not_exist = false;
  is_corrupted_mnt = false;
  is_err_not_found = false;
  is_not_found = false;
}

-- The volume with an id, with the id of the request.
abbrev pub find_volume : String → Cloud → Reply Volume
find_volume id [] = failed not_found_error
find_volume id (v ∷ vs) = if v.id == id then reply (record v { id = id }) else find_volume id vs

abbrev pub update : String → (Volume → Volume) → Cloud → Cloud
update id f = map (λ v. if v.id == id then f v else v)

abbrev remove : String → Cloud → Cloud
remove id [] = []
remove id (v ∷ vs) = if v.id == id then vs else v ∷ remove id vs

abbrev new_id : VolumeConfig → String
new_id v = "id-" <> v.name

abbrev new : VolumeConfig → Volume
new v = record {
  id = new_id v;
  name = v.name;
  instance_id = "";
  size_gigabytes = v.size_gigabytes;
  status = "available";
}

abbrev pub quota : Quota
quota = record {
  disk_gigabytes_limit = pos 100;
  disk_gigabytes_usage = pos 60;
  disk_volume_count_limit = pos 10;
  disk_volume_count_usage = pos 3;
}

abbrev pub cluster : Cluster
cluster = record {
  instances =
      record { id = "node-1"; region = "LON1" } ∷ record { id = "node-2"; region = "LON1" } ∷ [];
  volume_type = "standard";
}

abbrev pub memory : Clienter Cloud
memory = record {
  list_volumes = λ w. (reply w, w);
  get_volume = λ id w. (find_volume id w, w);
  new_volume = λ v w. (reply (new_id v), w ++ (new v ∷ []));
  delete_volume = λ id w. (reply tt, remove id w);
  attach_volume = λ id config w. (
    reply tt,
    update id (λ v. record v { instance_id = config.instance_id; status = "attached" }) w,
  );
  detach_volume =
      λ id w. (reply tt, update id (λ v. record v { instance_id = ""; status = "available" }) w);
  resize_volume = λ id n w. (reply tt, update id (λ v. record v { size_gigabytes = n }) w);
  get_quota = λ w. (reply quota, w);
  get_kubernetes_cluster = λ id w. (reply cluster, w);
  find_kubernetes_cluster_instance =
      λ id name w. (reply (record { id = name; region = "LON1" }), w);
  ping = λ w. (reply tt, w);
}

module _ {W : Type 0} where
  abbrev pub quiet_host : Host W
  quiet_host = record {
    sleep = λ n w. w;
    mkdir_all = λ path w. (reply tt, w);
    remove = λ path w. (reply tt, w);
    remove_all = λ path w. (reply tt, w);
    getenv = λ name w. if name == "KUBE_NODE_NAME" then "node-1" else "";
    stat = λ path w. (failed not_found_error, w);
    decode_file = λ path w. (failed not_found_error, w);
  }

  abbrev pub no_disk : DiskHotPlugger W
  no_disk = record {
    path_for_volume = λ id w. ("", w);
    format = λ path fs w. (ok tt, w);
    expand_filesystem = λ path w. (ok tt, w);
    mount = λ path target fs flags w. (ok tt, w);
    unmount = λ target w. (ok tt, w);
    is_formatted = λ path w. (ok false, w);
    is_mounted = λ target w. (ok false, w);
    get_statistics = λ path w. (panic, w);
  }

  abbrev pub single_caller : Group W
  single_caller = record { do_call = λ key fn. fn >>= (λ v. pure (v, false)) }

  pub single_caller-RunsAlone : RunsAlone single_caller
  single_caller-RunsAlone = record { runs = λ key fn w. refl }

  abbrev pub driver : Clienter W → Driver W
  driver c = record {
    civo_client = c;
    disk_hot_plugger = no_disk;
    controller = true;
    socket_filename = "unix:///tmp/civo-csi.sock";
    region = "LON1";
    namespace = "default";
    cluster_id = "12345678";
    test_mode = false;
    cluster_volume_type = "standard";
    volume_create_group = single_caller;
  }

abbrev pub held : Cloud → String → Option (String × ℤ)
held w n = first_named n w

-- Texts that the test tells apart differ.
pub ne_of : (s t : String) → (s == t) ≡ false → s ≢ t
ne_of s t h = λ e. ground (arith, ==-refl s)

find_volume-id : (id : String) (w : Cloud) (v : Volume) → find_volume id w ≡ reply v → v.id ≡ id
find_volume-id id [] v h = ground arith
find_volume-id id (u ∷ w) v h = ground (arith, find_volume-id id w v)

first_named-append :
    (w : Cloud) (v : Volume)
    → first_named v.name w ≡ none
    → first_named v.name (w ++ (v ∷ [])) ≡ some (v.id, v.size_gigabytes)
first_named-append [] v h = ground arith
first_named-append (u ∷ w) v h = ground (arith, first_named-append w v)

first_named-append_ne :
    (w : Cloud) (v : Volume) (n : String)
    → n ≢ v.name
    → first_named n (w ++ (v ∷ [])) ≡ first_named n w
first_named-append_ne [] v n h = ground arith
first_named-append_ne (u ∷ w) v n h = ground (arith, first_named-append_ne w v n)

pub memory-HoldsNames : HoldsNames quiet_host memory held
memory-HoldsNames = record {
  lists = λ w vs e n. ground arith;
  gets = λ w id v e. find_volume-id id w v e;
  list_keeps = λ w n. refl;
  get_keeps = λ w id n. refl;
  quota_keeps = λ w n. refl;
  sleep_keeps = λ w s n. refl;
  creates = λ w v id e h. ground (arith, first_named-append w (new v));
  new_keeps = λ w v n h. first_named-append_ne w (new v) n h;
  rejects = λ w v x n e. ground arith;
}

-- A driver whose API fails, over any world
abbrev pub node_driver : {W : Type 0} → DiskHotPlugger W → Driver W
node_driver p =
    record (driver (record {
      list_volumes = λ w. (failed not_found_error, w);
      get_volume = λ id w. (failed not_found_error, w);
      new_volume = λ v w. (failed not_found_error, w);
      delete_volume = λ id w. (failed not_found_error, w);
      attach_volume = λ id config w. (failed not_found_error, w);
      detach_volume = λ id w. (failed not_found_error, w);
      resize_volume = λ id n w. (failed not_found_error, w);
      get_quota = λ w. (failed not_found_error, w);
      get_kubernetes_cluster = λ id w. (failed not_found_error, w);
      find_kubernetes_cluster_instance = λ id name w. (failed not_found_error, w);
      ping = λ w. (failed not_found_error, w);
    })) { disk_hot_plugger = p }
