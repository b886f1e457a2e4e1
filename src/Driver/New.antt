-- ===== src/Driver/New.antt =====
-- `NewDriver`
use civo_csi.Base.{String, ◌==◌, not, Option, none, some, if◌then◌else◌, false}
use civo_csi.Action.{Action, Reply, ◌>>=◌, ◌>>◌, pure, call, read}
use civo_csi.Api.{Clienter}
use civo_csi.Disk.Real.{System, real_disk}
use civo_csi.Host.{Host}
use civo_csi.Driver.{Driver, Group, version}

-- `civogo.Component`
pub record Component : Type 0 where
  pub id : String
  pub name : String
  pub version : String

-- The client library: `civogo.NewClientWithURL` with the key, the URL and the region, the method
-- `SetUserAgent` on a client that may be nil, a client or nil as a `civogo.Clienter`, and a new
-- `singleflight.Group`.
pub record ClientLibrary (W : Type 0) : Type 1 where
  pub Client : Type 0
  pub new_client_with_url : String → String → String → W → Reply Client × W
  pub set_user_agent : Option Client → Component → Action W (Unit {0})
  pub as_clienter : Option Client → Clienter W
  pub new_group : Group W

abbrev pub default_socket_filename : String
default_socket_filename = "unix:///var/lib/kubelet/plugins/civo-csi/csi.sock"

module _ {W : Type 0} (host : Host W) (sys : System W) (lib : ClientLibrary W) where
  -- Without a key no client is made.
  unfoldable pub make_client : String → String → String → Action W (Option lib.Client)
  make_client api_url api_key region =
      if not (api_key == "")
      then (do client ← call (lib.new_client_with_url api_key api_url region); pure (some client))
      else pure none

  abbrev socket_or_default : String → String
  socket_or_default s = if s == "" then default_socket_filename else s

  unfoldable pub new_driver : String → String → String → String → String → Action W (Driver W)
  unfolding make_client
  new_driver api_url api_key region namespace cluster_id = do
    client ← make_client api_url api_key region
    lib.set_user_agent client (record { id = cluster_id; name = "civo-csi"; version = version })
    endpoint ← read (λ w. (host.getenv "CSI_ENDPOINT" w, w))
    pure (record {
      civo_client = lib.as_clienter client;
      disk_hot_plugger = real_disk sys;
      controller = not (api_key == "");
      socket_filename = socket_or_default endpoint;
      region = region;
      namespace = namespace;
      cluster_id = cluster_id;
      test_mode = false;
      cluster_volume_type = "";
      volume_create_group = lib.new_group;
    })
