-- ===== src/Identity.antt =====
-- pkg/driver/identity_server.go: `GetPluginInfo`, `GetPluginCapabilities`, `Probe`
use civo_csi.Base.{String, Bool, true, List, [], ◌∷◌}
use civo_csi.Action.{Action, external, status, error_arg, end, unavailable, ◌>>◌, pure, call_or}
use civo_csi.Csi.{PluginCapability, controller_service, offline_volume_expansion}
use civo_csi.Driver.{Driver, version}

-- The name and the version of the plugin
abbrev pub plugin_info : String × String
plugin_info = ("csi.civo.com", version)

abbrev pub plugin_capabilities : List PluginCapability
plugin_capabilities = controller_service ∷ offline_volume_expansion ∷ []

-- The value is `Ready`.
unfoldable pub probe : {W : Type 0} → Driver W → Action W Bool
probe d = do
  call_or (λ e. status unavailable "unable to connect to Civo API: %s" (error_arg (external e) end))
      d.civo_client.ping
  pure true
