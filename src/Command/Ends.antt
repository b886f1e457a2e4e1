-- ===== src/Command/Ends.antt =====
-- How the command ends.
use civo_csi.Base.{String, ◌≡◌, ◌≢◌, ◌↔◌, ◌⊎◌, inl, inr, arith, false}
use civo_csi.Action.{ok, panic, Outcome, Outcome-cases, reply, Reply-cases}
use civo_csi.Api.{Cluster}
use civo_csi.Disk.Real.{System}
use civo_csi.Host.{Host}
use civo_csi.Driver.{Driver}
use civo_csi.Driver.New.{ClientLibrary, new_driver}
use civo_csi.Driver.Serve.{Network, run}
use civo_csi.Command.{serve_cluster, start, main}

module _ {W : Type 0} (host : Host W) (sys : System W) (lib : ClientLibrary W) (net : Network W)
    (trim_space : String → String) where
  abbrev setting : String → W → String
  setting name w = trim_space (host.getenv name w)

  -- NewDriver with the settings of the environment
  abbrev pub made : W → Outcome (Driver W) × W
  made w =
      new_driver host sys lib (setting "CIVO_API_URL" w) (setting "CIVO_API_KEY" w)
        (setting "CIVO_REGION" w) (setting "CIVO_NAMESPACE" w) (setting "CIVO_CLUSTER_ID" w) w

  -- Without the flag -version, the command ends normally exactly if NewDriver succeeds, the cluster
  -- of the driver can be read, and Run with the volume type of the cluster does not panic: also if
  -- Run ends in an error. In all other cases it panics.
  pub main_ends :
      (w : W)
      → let done = (main host sys lib net trim_space false w).0 in
        ((done ≡ ok tt) ↔ (
          (d : Driver W) × (c : Cluster) × ((made w).0 ≡ ok d)
          × ((d.civo_client.get_kubernetes_cluster d.cluster_id (made w).1).0 ≡ reply c)
          × ((run host net
                (record d { cluster_volume_type = c.volume_type })
                (d.civo_client.get_kubernetes_cluster d.cluster_id (made w).1).1).0
              ≢ panic)))
        × ((done ≡ ok tt) ⊎ (done ≡ panic))
  unfolding main start serve_cluster
  main_ends w = elim (Outcome-cases (made w).0) [
    | inr (inl (x, e)) ↦
        ((λ h. ground arith, λ (d, c, m, r, quiet). ground arith), inr (ground arith))
    | inr (inr e) ↦ ((λ h. ground arith, λ (d, c, m, r, quiet). ground arith), inr (ground arith))
    | inl (d, e) ↦
        elim (Reply-cases (d.civo_client.get_kubernetes_cluster d.cluster_id (made w).1).0) [
          | inr (x, e') ↦
              ((λ h. ground arith, λ (d', c, m, r, quiet). ground arith), inr (ground arith))
          | inl (c, e') ↦
              let d' = record d { cluster_volume_type = c.volume_type } in
              let w' = (d.civo_client.get_kubernetes_cluster d.cluster_id (made w).1).1 in
              (
                (λ h. (d, c, e, e', λ p. ground arith), λ (d', c', m, r, quiet). ground arith),
                elim (Outcome-cases (run host net d' w').0) [
                  | inl (_, e'') ↦ inl (ground arith)
                  | inr (inl (x, e'')) ↦ inl (ground arith)
                  | inr (inr e'') ↦ inr (ground arith)
                ],
              )
        ]
  ]
