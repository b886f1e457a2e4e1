-- ===== src/Controller/Create/Names/Sequences.antt =====
-- Calls of `createVolumeUnsynced` one after the other, in any order and for any names and sizes, as
-- the group of `CreateVolume` and retries of the caller make them.
use civo_csi.Base.{String, ◌≡◌, ◌∙◌, inr, Option, some, arith}
use civo_csi.Base.Int.{ℤ}
use civo_csi.Action.{ok}
use civo_csi.Host.{Host}
use civo_csi.Driver.{Driver}
use civo_csi.Csi.{CreateVolumeRequest, CsiVolume}
use civo_csi.Controller.Create.{create_volume_unsynced}
use civo_csi.Controller.Create.Names.{HoldsNames}
use civo_csi.Controller.Create.Names.Ensures.{
  create_volume_unsynced-held, create_volume_unsynced_idem, create_volume_unsynced-frame,
}

pub data Creates {W : Type 0} (host : Host W) (d : Driver W) (w : W) : W → Type 0 where
  start : Creates host d w w
  then_create :
      {w' : W} (req : CreateVolumeRequest) (size : ℤ)
      → Creates host d w w'
      → Creates host d w (create_volume_unsynced host d req size w').1

module _ {W : Type 0} (host : Host W) (d : Driver W) (held : W → String → Option (String × ℤ))
    (laws : HoldsNames host d.civo_client held) where
  -- A name that has a volume keeps it.
  creates_keep :
      {w w' : W} (n : String) (v : String × ℤ)
      → held w n ≡ some v
      → Creates host d w w'
      → held w' n ≡ some v
  creates_keep n v h start = h
  creates_keep {w} n v h (then_create {w'} req size before) =
      let kept = creates_keep n v h before in
      create_volume_unsynced-frame host d held laws req size w' n (inr (ground arith)) ∙ kept

  -- Over an API that keeps names, two responses of createVolumeUnsynced to the same request with
  -- the same size are equal, however many other calls of it were made between them, whatever those
  -- were for and whatever came of them.
  pub creates_agree :
      {later : W} (req : CreateVolumeRequest) (size : ℤ) (w : W) (r s : CsiVolume)
      → (create_volume_unsynced host d req size w).0 ≡ ok r
      → Creates host d (create_volume_unsynced host d req size w).1 later
      → (create_volume_unsynced host d req size later).0 ≡ ok s
      → s ≡ r
  creates_agree {later} req size w r s h between h' =
      let has = create_volume_unsynced-held host d held laws req size w r h in
      create_volume_unsynced_idem host d held laws req size w later r s h
        (ground (arith, creates_keep req.name (r.volume_id, size) has between)) h'
