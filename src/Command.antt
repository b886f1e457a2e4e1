-- ===== src/Command.antt =====
-- main.go
pub mod Ends
use civo_csi.Base.{String, Bool, if◌then◌else◌, inl, inr}
use civo_csi.Action.{
  Action, Outcome, ok, panic, Reply, reply, failed, ◌>>=◌, ◌>>◌, pure, read, try, attempt,
}
use civo_csi.Disk.Real.{System}
use civo_csi.Host.{Host}
use civo_csi.Driver.{Driver}
use civo_csi.Driver.New.{ClientLibrary, new_driver}
use civo_csi.Driver.Serve.{Network, run}

module _ {W : Type 0} (host : Host W) (sys : System W) (lib : ClientLibrary W) (net : Network W)
    (trim_space : String → String) where
  abbrev env : String → Action W String
  env name = read (λ w. (trim_space (host.getenv name w), w))

  -- The signals that end the context end the server, which is a parameter.
  -- `log.Fatal().Err(err)` makes an event that is never sent, since no Msg follows, and so neither
  -- logs nor exits: after an error of NewDriver the nil driver is read, and after one of
  -- GetKubernetesCluster the nil cluster.
  unfoldable pub serve_cluster : Driver W → Action W (Unit {0})
  serve_cluster d = do
    answer ← try (d.civo_client.get_kubernetes_cluster d.cluster_id)
    elim answer [
      | failed _ ↦ λ w. (panic, w)
      | reply cluster ↦ (do
        attempt (run host net (record d { cluster_volume_type = cluster.volume_type }))
        pure tt)
    ]

  -- What follows the flags
  unfoldable pub start : Action W (Unit {0})
  unfolding serve_cluster
  start = do
    api_url ← env "CIVO_API_URL"
    api_key ← env "CIVO_API_KEY"
    region ← env "CIVO_REGION"
    namespace ← env "CIVO_NAMESPACE"
    cluster_id ← env "CIVO_CLUSTER_ID"
    made ← attempt (new_driver host sys lib api_url api_key region namespace cluster_id)
    elim made [ inl d ↦ serve_cluster d | inr _ ↦ λ w. (panic, w) ]

  -- `version_info` is the flag -version.
  unfoldable pub main : Bool → Action W (Unit {0})
  unfolding start
  main version_info = if version_info then pure tt else start
