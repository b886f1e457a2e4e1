-- ===== src/Driver/Serve.antt =====
-- `Run`: the address of the socket, and the steps up to serving.
pub mod Steps
use civo_csi.Base.{String, ◌==◌, ◌&&◌, not, if◌then◌else◌, true, false, Option, none, some}
use civo_csi.Action.{
  Action, Reply, reply, failed, external, errorf, text_arg, error_arg, end, is_not_exist, panic,
  ◌>>=◌, ◌>>◌, pure, raise, raise_if, call_or, try,
}
use civo_csi.Host.{Host}
use civo_csi.Driver.{Driver}

-- `url.URL`, by the parts that are read
pub record Url : Type 0 where
  pub scheme : String
  pub host : String
  pub path : String

-- `url.Parse`, `path.Join` of two parts, `filepath.FromSlash`, `net.Listen` with the network and the
-- address, and gRPC: a new server with an interceptor of its calls or without, the registration of
-- each service, and `Serve`, which returns when the listener fails or when the end of the context
-- has stopped the server.
pub record Network (W : Type 0) : Type 1 where
  pub Listener : Type 0
  pub Server : Type 0
  pub Request : Type 0
  pub Response : Type 0
  pub parse : String → Reply Url
  pub join : String → String → String
  pub from_slash : String → String
  pub listen : String → String → W → Reply Listener × W
  pub new_server : Option ((Request → Action W Response) → Request → Action W Response) → Server
  pub register_identity_server : Driver W → Server → Server
  pub register_controller_server : Driver W → Server → Server
  pub register_node_server : Driver W → Server → Server
  pub serve : Server → Listener → W → Reply (Unit {0}) × W

module _ {W : Type 0} (net : Network W) where
  -- The interceptor that logs the errors of the calls: it answers what the handler answers.
  unfoldable pub err_handler :
      (net.Request → Action W net.Response) → net.Request → Action W net.Response
  err_handler handler req = do resp ← handler req; pure resp

  -- The server with its three services
  unfoldable pub make_server : Driver W → net.Server
  make_server d =
      let grpc_server =
        if d.test_mode then net.new_server none else net.new_server (some err_handler) in
      net.register_node_server d
        (net.register_controller_server d (net.register_identity_server d grpc_server))

  abbrev pub grpc_address : Url → String
  grpc_address url =
      if url.host == ""
      then net.from_slash url.path
      else net.join url.host (net.from_slash url.path)

module _ {W : Type 0} (host : Host W) where
  -- A left-over socket is removed; that there is none is no error.
  unfoldable pub remove_socket : String → Action W (Unit {0})
  remove_socket address = do
    removed ← try (host.remove address)
    elim removed [
      | reply _ ↦ pure tt
      | failed e ↦
          if is_not_exist (external e)
          then pure tt
          else raise (
              errorf "failed to remove unix domain socket file %s, error: %s"
                (text_arg address (error_arg (external e) end)))
    ]

module _ {W : Type 0} (host : Host W) (net : Network W) where
  unfoldable pub listen_and_serve : Driver W → Url → Action W (Unit {0})
  unfolding remove_socket
  listen_and_serve d url = do
    remove_socket host (grpc_address net url)
    listener ←
        call_or (λ e. errorf "failed to listen: %v" (error_arg (external e) end))
          (net.listen url.scheme (grpc_address net url))
    call_or external (net.serve (make_server net d) listener)

  -- The error of url.Parse is dropped, and a nil URL is read.
  unfoldable pub run : Driver W → Action W (Unit {0})
  unfolding listen_and_serve
  run d = elim (net.parse d.socket_filename) [
    | reply url ↦ listen_and_serve d url
    | failed _ ↦ λ w. (panic, w)
  ]
