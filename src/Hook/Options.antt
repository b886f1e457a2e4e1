-- ===== src/Hook/Options.antt =====
-- What the options of a hook amount to.
use civo_csi.Base.{
  String, ◌≡◌, ◌≢◌, refl, ◌==◌, ◌∙◌, Bool, true, false, none, some, List, [], ◌∷◌, map, arith,
  if◌then◌else◌,
}
use civo_csi.Action.{ok, err, errorf, end}
use civo_csi.Hook.{
  Hook, ClientLibrary, with_node_name, apply_options, empty_hook, setup_kubernetes_client, new_hook,
}

-- The last of some names that is not empty, or the name that they start from.
abbrev pub last_name : String → List String → String
last_name s [] = s
last_name s (n ∷ names) = last_name (if n == "" then s else n) names

abbrev pub has_client : {W : Type 0} → Hook W → Bool
has_client h = elim h.client [ some _ ↦ true | none ↦ false ]

module _ {W : Type 0} (lib : ClientLibrary W) where
  -- The setup sets the client, and nothing else.
  setup_keeps :
      (h h' : Hook W) (w : W)
      → (setup_kubernetes_client lib h w).0 ≡ ok h'
      → (h'.node_name ≡ h.node_name) × (has_client h' ≡ true)
  unfolding setup_kubernetes_client
  setup_keeps h h' w done = ground arith

  new_hook-setup :
      (env : String) (opts : List (Hook W → Hook W)) (h : Hook W) (w : W)
      → (new_hook lib env opts w).0 ≡ ok h
      → (h.node_name ≡ (apply_options (with_node_name env ∷ opts) empty_hook).node_name)
        × (h.node_name ≢ "")
        × (has_client h ≡ true)
  unfolding new_hook
  new_hook-setup env opts h w done =
      ground (arith, setup_keeps (apply_options (with_node_name env ∷ opts) empty_hook) h w)

  names-last :
      (names : List String) (h : Hook W)
      → (apply_options (map with_node_name names) h).node_name ≡ last_name h.node_name names
  names-last [] h = refl
  names-last (n ∷ names) h = ground (arith, names-last names (with_node_name n h))

  -- With options that only give names, a hook that NewHook makes has a client, and its node name is
  -- the last of KUBE_NODE_NAME and the names that is not empty.
  new_hook-named :
      (env : String) (names : List String) (h : Hook W) (w : W)
      → (new_hook lib env (map with_node_name names) w).0 ≡ ok h
      → (h.node_name ≡ last_name "" (env ∷ names)) × (h.node_name ≢ "") × (has_client h ≡ true)
  new_hook-named env names h w done =
      let (same, named, client) = new_hook-setup env (map with_node_name names) h w done in
      (same ∙ names-last (env ∷ names) empty_hook, named, client)

  -- NewHook calls no library and fails if KUBE_NODE_NAME and all the names are empty.
  pub new_hook-rejects :
      (env : String) (names : List String) (w : W)
      → last_name "" (env ∷ names) ≡ ""
      → new_hook lib env (map with_node_name names) w ≡ (err (errorf "node name not found" end), w)
  unfolding new_hook
  new_hook-rejects env names w none_named =
      ground (arith, names-last (env ∷ names) empty_hook, none_named)
