-- ===== src/Driver/Serve/Steps.antt =====
-- What a `Run` that ends without an error has done.
use civo_csi.Base.{String, ◌≡◌, ◌⊎◌, inl, inr, arith, true}
use civo_csi.Action.{ok, Reply, reply, failed, Reply-cases, ExternalError}
use civo_csi.Host.{Host}
use civo_csi.Driver.{Driver}
use civo_csi.Driver.Serve.{
  Url, Network, grpc_address, make_server, remove_socket, listen_and_serve, run,
}

-- There is nothing under the path any more, by the answer of a removal.
abbrev pub IsCleared : Reply (Unit {0}) → Type 0
IsCleared r = (r ≡ reply tt) ⊎ ((e : ExternalError) × (r ≡ failed e) × (e.is_not_exist ≡ true))

module _ {W : Type 0} (host : Host W) where
  remove_socket-clears :
      (address : String) (w : W)
      → (remove_socket host address w).0 ≡ ok tt
      → IsCleared (host.remove address w).0
        × ((remove_socket host address w).1 ≡ (host.remove address w).1)
  unfolding remove_socket
  remove_socket-clears address w h = elim (Reply-cases (host.remove address w).0) [
    | inl (_, e) ↦ (inl e, ground arith)
    | inr (x, e) ↦ (inr (x, e, ground arith), ground arith)
  ]

module _ {W : Type 0} (host : Host W) (net : Network W) where
  -- If Run returns nil, then the address of the socket was cleared first, a listener was made on the
  -- same address after it, and the server of the driver served that listener to its end without an error.
  run_serves :
      (d : Driver W) (w : W)
      → (run host net d w).0 ≡ ok tt
      → (url : Url) × (l : net.Listener) × (net.parse d.socket_filename ≡ reply url)
        × IsCleared (host.remove (grpc_address net url) w).0
        × ((net.listen url.scheme (grpc_address net url) (host.remove (grpc_address net url) w).1).0
            ≡ reply l)
        × ((net.serve
              (make_server net d)
              l
              (net.listen url.scheme
                (grpc_address net url)
                (host.remove (grpc_address net url) w).1).1).0
            ≡ reply tt)
  unfolding run listen_and_serve
  run_serves d w h = elim (Reply-cases (net.parse d.socket_filename)) [
    | inr (x, e) ↦ ground arith
    | inl (url, e) ↦
        let address = grpc_address net url in
        let w₁ = (host.remove address w).1 in
        let (cleared, same) = remove_socket-clears host address w (ground arith) in
        elim (Reply-cases (net.listen url.scheme address w₁).0) [
          | inr (x, e') ↦ ground arith
          | inl (l, e') ↦ (url, l, e, cleared, e', ground arith)
        ]
  ]
