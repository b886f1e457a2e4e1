-- ===== src/Node/Mounts/Lifecycle.antt =====
-- The way of a volume through a node: staged, published, unpublished, unstaged; and what a repeated
-- call does.
use mathlib.Core.Path.{fun_ext}
use civo_csi.Node.Stage.{mount_flags}
use civo_csi.Base.{
  Bool, refl, all, sym, String, ◌≡◌, ◌≢◌, ◌∙◌, ap, true, List, [], ◌∷◌, arith, ==-refl,
}
use civo_csi.Csi.{StageRequest, NodePublishRequest}
use civo_csi.Disk.Contract.{Mounts, KeepsMounts}
use civo_csi.Host.{Host}
use civo_csi.Driver.{Driver}
use civo_csi.Node.Stage.Calls.{is_stageable}
use civo_csi.Node.Publish.Targets.{is_publishable}
use civo_csi.Node.Mounts.{
  NodeCall, stage, unstage, publish, unpublish, replay, run_node, asks_allowed, Works,
}
use civo_csi.Node.Mounts.Runs.{run_node_refines}

abbrev pub unstage_of : StageRequest → NodeCall
unstage_of req =
    unstage (record { volume_id = req.volume_id; staging_target_path = req.staging_target_path })

abbrev pub unpublish_of : NodePublishRequest → NodeCall
unpublish_of req = unpublish (record { volume_id = req.volume_id; target_path = req.target_path })

-- Both requests are complete, the target is another path than the staging path, and nothing is
-- mounted on either of them or on the device.
pub record IsFresh (device : String → String) (s : StageRequest) (p : NodePublishRequest)
    (f : Mounts) : Type 0 where
  pub stageable : is_stageable s ≡ true
  pub publishable : is_publishable p ≡ true
  pub apart : p.target_path ≢ s.staging_target_path
  pub device_free : f (device s.volume_id) ≡ 0
  pub staging_free : f s.staging_target_path ≡ 0
  pub target_free : f p.target_path ≡ 0

module _ (device : String → String) (s : StageRequest) (p : NodePublishRequest) (f : Mounts)
    (fresh : IsFresh device s p f) where
  abbrev up : List NodeCall
  up = stage s ∷ publish p ∷ []

  up_mounts :
      (replay device up f s.staging_target_path ≡ 1) × (replay device up f p.target_path ≡ 1)
  up_mounts = (
    ground (
      arith,
      fresh.stageable,
      fresh.publishable,
      fresh.apart,
      fresh.device_free,
      fresh.staging_free,
      fresh.target_free,
      ==-refl s.staging_target_path,
    ),
    ground (
      arith,
      fresh.stageable,
      fresh.publishable,
      fresh.apart,
      fresh.device_free,
      fresh.staging_free,
      fresh.target_free,
      ==-refl p.target_path,
    ),
  )

  down_mounts :
      (u : String)
      → replay device (stage s ∷ publish p ∷ unpublish_of p ∷ unstage_of s ∷ []) f u ≡ f u
  down_mounts u = ground (
    arith,
    fresh.stageable,
    fresh.publishable,
    fresh.apart,
    fresh.device_free,
    fresh.staging_free,
    fresh.target_free,
    ==-refl s.staging_target_path,
    ==-refl p.target_path,
  )

published_twice :
    (device : String → String) (p : NodePublishRequest) (f : Mounts)
    → replay device (publish p ∷ publish p ∷ []) f ≡ replay device (publish p ∷ []) f
published_twice device p f = fun_ext λ u. ground (arith, ==-refl p.target_path)

module _ {W : Type 0} (host : Host W) (d : Driver W) (mounts : W → Mounts)
    (device : String → String) (allowed : List String → Bool)
    (keeps : KeepsMounts allowed d.disk_hot_plugger mounts)
    (works : Works host d mounts device) where
  abbrev refines :
      (cs : List NodeCall) (w : W)
      → all (asks_allowed allowed) cs ≡ true
      → mounts (run_node host d cs w) ≡ replay device cs (mounts w)
  refines = run_node_refines host d mounts device allowed keeps works

  -- On a node on which nothing fails, for complete requests with allowed mount flags whose paths
  -- differ and where nothing is mounted yet, staging and publishing mount once on the staging path and once on the target;
  -- unpublishing and unstaging after them leave every path mounted as often as at the start.
  pub node_lifecycle :
      (s : StageRequest) (p : NodePublishRequest) (w : W)
      → IsFresh device s p (mounts w)
      → allowed (mount_flags s.volume_capability) ≡ true
      → let up = run_node host d (stage s ∷ publish p ∷ []) w in
        (mounts up s.staging_target_path ≡ 1)
        × (mounts up p.target_path ≡ 1)
        × ((u : String)
            → mounts (run_node host d (unpublish_of p ∷ unstage_of s ∷ []) up) u ≡ mounts w u)
  node_lifecycle s p w fresh plain =
      let (staging, target) = up_mounts device s p (mounts w) fresh in
      let at = λ (u : String).
        ap (λ (f : Mounts). f u) (refines (stage s ∷ publish p ∷ []) w (ground arith)) in
      (
        at s.staging_target_path ∙ staging,
        at p.target_path ∙ target,
        λ u.
            ap (λ (f : Mounts). f u)
              (refines (stage s ∷ publish p ∷ unpublish_of p ∷ unstage_of s ∷ []) w (ground arith))
            ∙ down_mounts device s p (mounts w) fresh u,
      )

  -- On a node on which nothing fails, a NodePublishVolume that is repeated changes no mount.
  publish_twice :
      (p : NodePublishRequest) (w : W)
      → mounts (run_node host d (publish p ∷ publish p ∷ []) w)
        ≡ mounts (run_node host d (publish p ∷ []) w)
  publish_twice p w =
      refines (publish p ∷ publish p ∷ []) w refl
      ∙ published_twice device p (mounts w)
      ∙ sym (refines (publish p ∷ []) w refl)
