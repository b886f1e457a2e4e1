-- ===== src/Controller/Create/Names/Ensures.antt =====
-- The contract of `createVolumeUnsynced` over an API that keeps names: a response is the volume of
-- the name, the call changes nothing else, and a repetition answers alike.
use civo_csi.Base.{String, ◌≡◌, ◌≢◌, ◌∙◌, sym, Option, none, some, inl, inr, ◌⊎◌, arith}
use civo_csi.Base.Int.{ℤ}
use civo_csi.Action.{ok, Reply-cases}
use civo_csi.Host.{Host}
use civo_csi.Driver.{Driver}
use civo_csi.Csi.{CreateVolumeRequest, CsiVolume}
use civo_csi.Controller.Create.{
  lookup_existing_by_name, volume_config, submit, create_new, check_quota, create_volume_unsynced,
}
use civo_csi.Controller.Create.Writes.{lookup-none}
use civo_csi.Controller.Create.Response.{
  lookup-some, resolve_duplicate-ok, await_created-ok, submit-ok, create_volume_unsynced-ok,
  create_volume_unsynced-capacity, prepared,
}
use civo_csi.Controller.Create.Names.{
  HoldsNames, first_named-find, first_named-none, held-lookup, held-resolve_duplicate,
  held-await_created,
}

module _ {W : Type 0} (host : Host W) (d : Driver W) (held : W → String → Option (String × ℤ))
    (laws : HoldsNames host d.civo_client held) where
  -- What a lookup that answers says of the API.
  lookup_some-held :
      (name : String) (size : ℤ) (w : W) (r : CsiVolume)
      → (lookup_existing_by_name host d name size w).0 ≡ ok (some r)
      → held w name ≡ some (r.volume_id, size)
  lookup_some-held name size w r h =
      let (vs, v, l, f, s, e) = lookup-some host d size name w r h in
      ground (arith, laws.lists w vs l name, first_named-find name vs v f)

  lookup_none-held :
      (name : String) (size : ℤ) (w : W)
      → (lookup_existing_by_name host d name size w).0 ≡ ok none
      → held w name ≡ none
  lookup_none-held name size w h =
      let (vs, l, f, e) = lookup-none host d name size w h in
      sym (laws.lists w vs l name) ∙ first_named-none name vs f

  prepared_keeps : (w : W) (n : String) → held (prepared d w) n ≡ held w n
  prepared_keeps w n = laws.quota_keeps (d.civo_client.list_volumes w).1 n ∙ laws.list_keeps w n

  submit-held :
      (name : String) (size : ℤ) (w : W) (r : CsiVolume)
      → held w name ≡ none
      → (submit host d name size w).0 ≡ ok r
      → held (submit host d name size w).1 name ≡ some (r.volume_id, size)
  unfolding submit
  submit-held name size w r free h =
      let config = volume_config d name size in
      let w' = (d.civo_client.new_volume config w).1 in
      elim (submit-ok host d size name w r h) [
        | inl (id, e, o) ↦
            let (v, g, q) = await_created-ok host d size id w' r o in
            ground (
              arith,
              laws.creates w config id e free,
              laws.gets w' id v g,
              held-await_created host d held laws id size w' name,
            )
        | inr (x, e, o) ↦
            let found = resolve_duplicate-ok host d size name x w' r o in
            ground (
              arith,
              lookup_some-held name size w' r found.1,
              held-resolve_duplicate host d held laws name size x w' name,
            )
      ]

  submit-held_ne :
      (name : String) (size : ℤ) (w : W) (n : String)
      → n ≢ name
      → held (submit host d name size w).1 n ≡ held w n
  unfolding submit
  submit-held_ne name size w n ne =
      let config = volume_config d name size in
      let w' = (d.civo_client.new_volume config w).1 in
      elim (Reply-cases (d.civo_client.new_volume config w).0) [
        | inl (id, e) ↦
            ground (
              arith,
              laws.new_keeps w config n ne,
              held-await_created host d held laws id size w' n,
            )
        | inr (x, e) ↦ ground (
          arith,
          laws.new_keeps w config n ne,
          held-resolve_duplicate host d held laws name size x w' n,
        )
      ]

  create_new-held_ne :
      (name : String) (size : ℤ) (w : W) (n : String)
      → n ≢ name
      → held (create_new host d name size w).1 n ≡ held w n
  unfolding create_new check_quota
  create_new-held_ne name size w n ne = elim (Reply-cases (d.civo_client.get_quota w).0) [
    | inl (q, e) ↦
        ground
          (arith, laws.quota_keeps w n, submit-held_ne name size (d.civo_client.get_quota w).1 n ne)
    | inr (x, e) ↦ ground (arith, laws.quota_keeps w n)
  ]

  -- Over an API that keeps names, after a response of createVolumeUnsynced the volume that is
  -- listed first under the requested name has the id of the response and the requested size.
  pub create_volume_unsynced-held :
      (req : CreateVolumeRequest) (size : ℤ) (w : W) (r : CsiVolume)
      → (create_volume_unsynced host d req size w).0 ≡ ok r
      → held (create_volume_unsynced host d req size w).1 req.name ≡ some (r.volume_id, size)
  create_volume_unsynced-held req size w r h =
      elim (create_volume_unsynced-ok host d size req w r h) [
        | inl (found, at) ↦ rw at (
            held-lookup host d held laws req.name size w req.name
            ∙ lookup_some-held req.name size w r found)
        | inr (missing, made, at) ↦ rw at (
            submit-held req.name size (prepared d w) r
              (prepared_keeps w req.name ∙ lookup_none-held req.name size w missing) made)
      ]

  -- Over an API that keeps names, whatever the outcome of createVolumeUnsynced, names other than
  -- the requested one keep their volumes, and a name that has a volume keeps it.
  pub create_volume_unsynced-frame :
      (req : CreateVolumeRequest) (size : ℤ) (w : W) (n : String)
      → (n ≢ req.name) ⊎ (held w n ≢ none)
      → held (create_volume_unsynced host d req size w).1 n ≡ held w n
  unfolding create_volume_unsynced
  create_volume_unsynced-frame req size w n h =
      let (o, w') = lookup_existing_by_name host d req.name size w in
      ground (
        arith,
        held-lookup host d held laws req.name size w n,
        λ (e : o ≡ ok none). lookup_none-held req.name size w e,
        λ (ne : n ≢ req.name). create_new-held_ne req.name size w' n ne,
      )

  -- A repeated request gets the same response, if the volume of the name is still the same.
  pub create_volume_unsynced_idem :
      (req : CreateVolumeRequest) (size : ℤ) (w later : W) (r s : CsiVolume)
      → (create_volume_unsynced host d req size w).0 ≡ ok r
      → held later req.name ≡ held (create_volume_unsynced host d req size w).1 req.name
      → (create_volume_unsynced host d req size later).0 ≡ ok s
      → s ≡ r
  create_volume_unsynced_idem req size w later r s h same h' =
      let held_r = create_volume_unsynced-held req size w r h in
      let held_s = create_volume_unsynced-held req size later s h' in
      ground (
        arith,
        create_volume_unsynced-frame req size later req.name (inr (ground arith)),
        create_volume_unsynced-capacity host d size req w r h,
        create_volume_unsynced-capacity host d size req later s h',
      )
