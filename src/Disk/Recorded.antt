-- ===== src/Disk/Recorded.antt =====
-- A disk plugger that keeps, newest first, the calls that change a disk or a mount.
use civo_csi.Base.{String, List, ◌∷◌}
use civo_csi.Action.{Action}
use civo_csi.Disk.{DiskHotPlugger}

pub data DiskEvent : Type 0 where
  formatting : String → String → DiskEvent
  expanding : String → DiskEvent
  mounting : String → String → String → List String → DiskEvent
  unmounting : String → DiskEvent

abbrev pub Journal : Type 0 → Type 0
Journal W = W × List DiskEvent

-- An action that leaves the journal alone, and one that is noted in it.
abbrev pub unnoted : {W A : Type 0} → Action W A → Action (Journal W) A
unnoted m (w, events) = let (r, w') = m w in (r, (w', events))

abbrev pub noted : {W A : Type 0} → DiskEvent → Action W A → Action (Journal W) A
noted e m (w, events) = let (r, w') = m w in (r, (w', e ∷ events))

abbrev pub recorded_disk : {W : Type 0} → DiskHotPlugger W → DiskHotPlugger (Journal W)
recorded_disk p = record {
  path_for_volume =
      λ id (w, events). let (path, w') = p.path_for_volume id w in (path, (w', events));
  format = λ path fs. noted (formatting path fs) (p.format path fs);
  expand_filesystem = λ path. noted (expanding path) (p.expand_filesystem path);
  mount =
      λ path target fs flags. noted (mounting path target fs flags) (p.mount path target fs flags);
  unmount = λ target. noted (unmounting target) (p.unmount target);
  is_formatted = λ path. unnoted (p.is_formatted path);
  is_mounted = λ target. unnoted (p.is_mounted target);
  get_statistics = λ path. unnoted (p.get_statistics path);
}
