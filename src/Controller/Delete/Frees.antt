-- ===== src/Controller/Delete/Frees.antt =====
-- `DeleteVolume` against the names that the API holds.
use civo_csi.Base.{
  String, ◌≡◌, ◌≢◌, ◌∙◌, ◌⊎◌, inl, inr, true, Option, none, some, contains, string_dec, arith,
}
use civo_csi.Base.Int.{ℤ}
use civo_csi.Action.{ok, ExternalError, reply, failed, Reply-cases}
use civo_csi.Api.{Clienter}
use civo_csi.Csi.{CreateVolumeRequest, CsiVolume}
use civo_csi.Host.{Host}
use civo_csi.Driver.{Driver}
use civo_csi.Controller.Create.{create_volume_unsynced}
use civo_csi.Controller.Create.Names.{HoldsNames}
use civo_csi.Controller.Create.Names.Ensures.{
  create_volume_unsynced-held, create_volume_unsynced-frame,
}
use civo_csi.Controller.Delete.{delete_volume}

-- Laws of the API's DeleteVolume, where names and ids are unique: a success leaves no volume under
-- the name of the id, an error that says that the volume is not there is true, and no other name
-- changes.
pub record DeletesNames {W : Type 0} (c : Clienter W) (held : W → String → Option (String × ℤ))
    : Type 0 where
  pub ids_apart :
      (w : W) (id n m : String) (s t : ℤ)
      → held w n ≡ some (id, s)
      → held w m ≡ some (id, t)
      → n ≡ m
  pub deletes :
      (id : String) (w : W) (n : String) (s : ℤ)
      → (c.delete_volume id w).0 ≡ reply tt
      → held w n ≡ some (id, s)
      → held (c.delete_volume id w).1 n ≡ none
  pub absent :
      (id : String) (w : W) (x : ExternalError) (n : String) (s : ℤ)
      → (c.delete_volume id w).0 ≡ failed x
      → contains x.text "DatabaseVolumeNotFoundError" ≡ true
      → held w n ≢ some (id, s)
  pub delete_keeps :
      (id : String) (w : W) (n : String)
      → ((s : ℤ) → held w n ≢ some (id, s))
      → held (c.delete_volume id w).1 n ≡ held w n

module _ {W : Type 0} (d : Driver W) where
  delete_volume-ok :
      (id : String) (w : W)
      → (delete_volume d id w).0 ≡ ok tt
      → ((delete_volume d id w).1 ≡ (d.civo_client.delete_volume id w).1)
        × (((d.civo_client.delete_volume id w).0 ≡ reply tt)
            ⊎ ((x : ExternalError) × ((d.civo_client.delete_volume id w).0 ≡ failed x)
                × (contains x.text "DatabaseVolumeNotFoundError" ≡ true)))
  unfolding delete_volume
  delete_volume-ok id w h = elim (Reply-cases (d.civo_client.delete_volume id w).0) [
    | inl (_, e) ↦ (ground arith, inl e)
    | inr (x, e) ↦ (ground arith, inr (x, e, ground arith))
  ]

module _ {W : Type 0} (d : Driver W) (held : W → String → Option (String × ℤ))
    (deletes : DeletesNames d.civo_client held) where
  delete_volume-held :
      (id : String) (w : W) (n : String) (s : ℤ)
      → (delete_volume d id w).0 ≡ ok tt
      → held w n ≡ some (id, s)
      → held (delete_volume d id w).1 n ≡ none
  delete_volume-held id w n s h has =
      let (at, answer) = delete_volume-ok d id w h in
      elim answer [
        | inl done ↦ ground (arith, deletes.deletes id w n s done has)
        | inr (x, e, gone) ↦ ground (arith, deletes.absent id w x n s e gone)
      ]

  delete_volume-frame :
      (id : String) (w : W) (n : String)
      → (delete_volume d id w).0 ≡ ok tt
      → ((s : ℤ) → held w n ≢ some (id, s))
      → held (delete_volume d id w).1 n ≡ held w n
  delete_volume-frame id w n h lacks =
      ground (arith, (delete_volume-ok d id w h).0, deletes.delete_keeps id w n lacks)

module _ {W : Type 0} (host : Host W) (d : Driver W) (held : W → String → Option (String × ℤ))
    (laws : HoldsNames host d.civo_client held) (deletes : DeletesNames d.civo_client held) where
  -- Over an API that keeps names and ids and deletes what it says, a createVolumeUnsynced for a name
  -- that has no volume followed by a DeleteVolume of the id of its response, both successful, leaves
  -- every name with the volume that it had at the start, or with none as at the start.
  pub create_delete :
      (req : CreateVolumeRequest) (size : ℤ) (w : W) (r : CsiVolume)
      → held w req.name ≡ none
      → (create_volume_unsynced host d req size w).0 ≡ ok r
      → (delete_volume d r.volume_id (create_volume_unsynced host d req size w).1).0 ≡ ok tt
      → (n : String)
      → held (delete_volume d r.volume_id (create_volume_unsynced host d req size w).1).1 n
        ≡ held w n
  create_delete req size w r free made gone n =
      let w' = (create_volume_unsynced host d req size w).1 in
      let has = create_volume_unsynced-held host d held laws req size w r made in
      elim (string_dec n req.name) [
        | yes same ↦ ground (
          arith,
          free,
          same,
          delete_volume-held d held deletes r.volume_id w' req.name size gone has,
        )
        | no apart ↦
            delete_volume-frame d held deletes r.volume_id w' n gone
              (λ s here. apart (deletes.ids_apart w' r.volume_id n req.name s size here has))
            ∙ create_volume_unsynced-frame host d held laws req size w n (inl apart)
      ]
