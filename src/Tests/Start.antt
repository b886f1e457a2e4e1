-- ===== src/Tests/Start.antt =====
-- `main` and `Run` over the API of Tests/Memory and a system on which every command fails.
use civo_csi.Base.{String, ◌≡◌, ◌≢◌, refl, ◌⊎◌, ◌↔◌, false, some, [], string_dec}
use civo_csi.Action.{ok, panic, reply, failed}
use civo_csi.Api.{Cluster}
use civo_csi.Disk.Real.{System, not_run}
use civo_csi.Driver.{Driver}
use civo_csi.Driver.New.{ClientLibrary}
use civo_csi.Driver.Serve.{Network, remove_socket, listen_and_serve, run}
use civo_csi.Command.{main}
use civo_csi.Command.Ends.{made, main_ends}
use civo_csi.Tests.Memory.{Cloud, memory, quiet_host, driver, single_caller, not_found_error}

abbrev no_system : System Cloud
no_system = record {
  glob = λ pattern w. ([], w);
  look_path = λ name w. (failed not_found_error, w);
  run = λ name args w. (record { output = ""; error = some (not_run not_found_error) }, w);
  mkdir_all = λ path w. (failed not_found_error, w);
  create_file = λ path w. (failed not_found_error, w);
  dir = λ path. "/";
  statfs = λ path w. (failed not_found_error, w);
}

-- A server that stops at once
abbrev network : Network Cloud
network = record {
  Listener = String;
  Server = Unit {0};
  Request = Unit {0};
  Response = Unit {0};
  parse = λ name. reply (record { scheme = "unix"; host = ""; path = "/tmp/civo-csi.sock" });
  join = λ a b. a;
  from_slash = λ path. path;
  listen = λ scheme address w. (reply address, w);
  new_server = λ interceptor. tt;
  register_identity_server = λ d s. tt;
  register_controller_server = λ d s. tt;
  register_node_server = λ d s. tt;
  serve = λ s l w. (reply tt, w);
}

abbrev library : ClientLibrary Cloud
library = record {
  Client = Unit {0};
  new_client_with_url = λ key url region w. (reply tt, w);
  set_user_agent = λ client component w. (ok tt, w);
  as_clienter = λ client. memory;
  new_group = single_caller;
}

serves : (run quiet_host network (driver memory) []).0 ≡ ok tt
unfolding run listen_and_serve remove_socket string_dec
serves = refl

main_ends_example :
    let done = (main quiet_host no_system library network (λ s. s) false []).0 in
    ((done ≡ ok tt) ↔ (
      (d : Driver Cloud) × (c : Cluster) × ((made quiet_host no_system library network
          (λ s. s)
          []).0
        ≡ ok d)
      × ((d.civo_client.get_kubernetes_cluster d.cluster_id
            (made quiet_host no_system library network (λ s. s) []).1).0
          ≡ reply c)
      × ((run quiet_host network
            (record d { cluster_volume_type = c.volume_type })
            (d.civo_client.get_kubernetes_cluster d.cluster_id
              (made quiet_host no_system library network (λ s. s) []).1).1).0
          ≢ panic)))
    × ((done ≡ ok tt) ⊎ (done ≡ panic))
main_ends_example = main_ends quiet_host no_system library network (λ s. s) []
