-- ===== src/Node/Info/Offline.antt =====
-- When `NodeGetInfo` needs the API.
use civo_csi.Base.{String, ◌≡◌, ◌≢◌, refl, [], inl, inr, arith}
use civo_csi.Base.Int.{pos}
use civo_csi.Action.{ok, Reply-cases}
use civo_csi.Api.{Clienter, Logged}
use civo_csi.Host.{Host, recorded_host}
use civo_csi.Driver.{Driver, watched}
use civo_csi.Csi.{NodeInfo}
use civo_csi.Node.Info.{
  config_file, current_node_details, current_node_details_from_env, node_get_info,
  max_volumes_per_node,
}

abbrev info : String → String → NodeInfo
info id region = record {
  node_id = id;
  max_volumes_per_node = max_volumes_per_node;
  region = region;
}

module _ {W : Type 0} (host : Host W) (c : Clienter W) (d : Driver (Logged W)) where
  details_from_env-offline :
      (w : W)
      → host.getenv "NODE_ID" w ≢ ""
      → current_node_details_from_env (recorded_host host) (watched c d) (w, [])
        ≡ (ok (host.getenv "NODE_ID" w, host.getenv "REGION" w), (w, []))
  unfolding current_node_details_from_env
  details_from_env-offline w set = ground arith

  -- If NODE_ID is set, NodeGetInfo succeeds and calls nothing of the API, whether or not there is a
  -- configuration file and whether or not it can be read; it answers at most 1024 volumes.
  node_info_offline :
      (w : W)
      → ((w' : W) → host.getenv "NODE_ID" w' ≢ "")
      → let out = node_get_info (recorded_host host) (watched c d) (w, []) in
        (out.1.1 ≡ [])
        × ((info : NodeInfo) × (out.0 ≡ ok info) × (info.max_volumes_per_node ≡ pos 1024))
  unfolding node_get_info current_node_details
  node_info_offline w set =
      let w₁ = (host.stat config_file w).1 in
      let w₂ = (host.decode_file config_file w₁).1 in
      elim (Reply-cases (host.stat config_file w).0) [
        | inl (_, e) ↦ elim (Reply-cases (host.decode_file config_file w₁).0) [
          | inl (config, e') ↦
              (ground arith, (info config.instance_id config.region, ground arith, refl))
          | inr (x, e') ↦ (
            ground (arith, details_from_env-offline w₂ (set w₂)),
            (
              info (host.getenv "NODE_ID" w₂) (host.getenv "REGION" w₂),
              ground (arith, details_from_env-offline w₂ (set w₂)),
              refl,
            ),
          )
        ]
        | inr (x, e) ↦ (
          ground (arith, details_from_env-offline w₁ (set w₁)),
          (
            info (host.getenv "NODE_ID" w₁) (host.getenv "REGION" w₁),
            ground (arith, details_from_env-offline w₁ (set w₁)),
            refl,
          ),
        )
      ]
