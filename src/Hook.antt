-- ===== src/Hook.antt =====
-- pkg/driver/hook/hook.go and pkg/driver/hook/options.go: the hook, its options, and `NewHook`.
pub mod Options
pub mod PreStop
pub mod Wait
use civo_csi.Base.{String, ◌==◌, Option, none, some, List, [], ◌∷◌, inl, inr, if◌then◌else◌}
use civo_csi.Action.{
  Action, Outcome, ok, err, Reply, reply, failed, Error, ExternalError, external, errorf, wrapped,
  end, text_arg, error_arg, ◌>>=◌, ◌>>◌, pure, raise, raise_if, call_or, attempt,
}

-- A `storagev1.VolumeAttachment`, by what is read of it
pub record VolumeAttachment : Type 0 where
  pub name : String
  pub node_name : String

-- The calls of `kubernetes.Interface`: the keys of a node's taints, the volume attachments, and the
-- event handler that is added to an informer.
pub record Kubernetes (W : Type 0) : Type 0 where
  pub get_node : String → W → Reply (List String) × W
  pub list_volume_attachments : W → Reply (List VolumeAttachment) × W
  pub add_event_handler : W → Reply (Unit {0}) × W

-- The struct `hook`
pub record Hook (W : Type 0) : Type 0 where
  pub client : Option (Kubernetes W)
  pub node_name : String
  pub client_cfg_path : String

-- `clientcmd.BuildConfigFromFlags`, `rest.InClusterConfig`, and `kubernetes.NewForConfig`
pub record ClientLibrary (W : Type 0) : Type 1 where
  pub Config : Type 0
  pub build_config_from_flags : String → W → Reply Config × W
  pub in_cluster_config : W → Reply Config × W
  pub new_for_config : Config → W → Reply (Kubernetes W) × W

module _ {W : Type 0} where
  -- A value of the type `Option` is a function on the hook.
  abbrev pub with_kubernetes_client : Option (Kubernetes W) → Hook W → Hook W
  with_kubernetes_client none h = h
  with_kubernetes_client (some c) h = record h { client = some c }

  abbrev pub with_kubernetes_client_config_path : String → Hook W → Hook W
  with_kubernetes_client_config_path path h =
      if path == "" then h else record h { client_cfg_path = path }

  abbrev pub with_node_name : String → Hook W → Hook W
  with_node_name name h = if name == "" then h else record h { node_name = name }

  abbrev pub apply_options : List (Hook W → Hook W) → Hook W → Hook W
  apply_options [] h = h
  apply_options (f ∷ fs) h = apply_options fs (f h)

  abbrev pub empty_hook : Hook W
  empty_hook = record { client = none; node_name = ""; client_cfg_path = "" }

  module _ (lib : ClientLibrary W) where
    abbrev new_client : lib.Config → Action W (Kubernetes W)
    new_client config =
        call_or (λ e. wrapped "failed to create kubernetes API client: %w" (external e))
          (lib.new_for_config config)

    -- A client that is set is kept.
    unfoldable pub setup_kubernetes_client : Hook W → Action W (Hook W)
    setup_kubernetes_client h = elim h.client [
      | some _ ↦ pure h
      | none ↦
          if h.client_cfg_path == ""
          then (do
            config ←
                call_or (λ e. wrapped "failed to load in-cluster kubeconfig: %w" (external e))
                  lib.in_cluster_config
            client ← new_client config
            pure (record h { client = some client }))
          else (do
            config ←
                call_or
                  (λ e.
                    errorf "failed to build kubeconfig from path %q: %w"
                      (text_arg h.client_cfg_path (error_arg (external e) end)))
                  (lib.build_config_from_flags h.client_cfg_path)
            client ← new_client config
            pure (record h { client = some client }))
    ]

    -- `env` is the value of KUBE_NODE_NAME, from which the default option is made.
    unfoldable pub new_hook : String → List (Hook W → Hook W) → Action W (Hook W)
    unfolding setup_kubernetes_client
    new_hook env opts = do
      let h = apply_options (with_node_name env ∷ opts) empty_hook
      raise_if (h.node_name == "") (errorf "node name not found" end)
      answer ← attempt (setup_kubernetes_client h)
      elim answer [
        | inl h' ↦ pure h'
        | inr e ↦ raise (wrapped "failed to setup kubernetes API client: %w" e)
      ]
