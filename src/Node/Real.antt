-- ===== src/Node/Real.antt =====
-- The node service with the real disk plugger: what it takes to format a disk and to grow a
-- filesystem, in terms of the commands that run.
use civo_csi.Base.{String, ◌≡◌, ◌≢◌, inl, inr, none, some, arith, [], ◌∷◌}
use civo_csi.Base.Int.{pos}
use civo_csi.Action.{Action, ok, reply, ExternalError, Reply-cases}
use civo_csi.Api.{Volume}
use civo_csi.Csi.{PathRequest}
use civo_csi.Driver.{Driver}
use civo_csi.Disk.Real.{
  System, exited, require_command, path_for_volume, is_formatted, expand_filesystem, real_disk,
}
use civo_csi.Node.Info.{node_expand_volume}

module _ {W : Type 0} (sys : System W) (d : Driver W) where
  abbrev pub on_system : Driver W
  on_system = record d { disk_hot_plugger = real_disk sys }

  -- Another way to format
  abbrev pub formats_by : (String → String → Action W (Unit {0})) → Driver W
  formats_by f = record d { disk_hot_plugger = record (real_disk sys) { format = f } }

  -- `blkid` on a path, in the world in which IsFormatted runs it, ends with status 2.
  abbrev pub FoundBlank : String → W → Type 0
  FoundBlank path w =
      (x : ExternalError) × ((sys.run "blkid" (path ∷ []) (sys.look_path "blkid" w).1).0.error
        ≡ some (exited (pos 2) x))

  -- With the real disk plugger, if NodeExpandVolume succeeds, then the API answered the read of the
  -- volume, and on the path of the disk that was looked up last, which is not empty, blkid succeeded
  -- and then resize2fs did, as the last thing.
  pub node_expands :
      (req : PathRequest) (w : W)
      → (node_expand_volume on_system req w).0 ≡ ok tt
      → let w₁ = (d.civo_client.get_volume req.volume_id w).1 in
        let w₂ = (path_for_volume sys req.volume_id w₁).1 in
        let (device, w₃) = path_for_volume sys req.volume_id w₂ in
        let (checked, w₄) = sys.run "blkid" (device ∷ []) (sys.look_path "blkid" w₃).1 in
        let (grown, w₅) = sys.run "/usr/sbin/resize2fs" (device ∷ []) w₄ in
        ((v : Volume) × ((d.civo_client.get_volume req.volume_id w).0 ≡ reply v))
        × (device ≢ "")
        × (checked.error ≡ none)
        × (grown.error ≡ none)
        × ((node_expand_volume on_system req w).1 ≡ w₅)
  unfolding node_expand_volume expand_filesystem is_formatted require_command
  node_expands req w h = elim (Reply-cases (d.civo_client.get_volume req.volume_id w).0) [
    | inr (x, e) ↦ ground arith
    | inl (v, e) ↦ ((v, e), ground arith, ground arith, ground arith, ground arith)
  ]
