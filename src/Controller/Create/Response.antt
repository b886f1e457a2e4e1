-- ===== src/Controller/Create/Response.antt =====
-- What `createVolumeUnsynced` returns, whatever the API answers.
use civo_csi.Base.{
  String, ◌≢◌, find, ap, ◌≡◌, none, some, List, [], ◌∷◌, inl, inr, ◌⊎◌, arith, Bool-cases, ◌==◌,
  true,
}
use civo_csi.Base.Int.{ℤ, eqb_ℤ→eq}
use civo_csi.Action.{ok, panic, err, Error, external, ExternalError, reply, failed, Reply-cases}
use civo_csi.Api.{Volume}
use civo_csi.Host.{Host}
use civo_csi.Driver.{Driver}
use civo_csi.Csi.{CreateVolumeRequest, CsiVolume}
use civo_csi.Controller.Size.{capacity_of}
use civo_csi.Controller.Create.{
  resolve_existing_volume, resolve_first, lookup_existing_by_name, volume_config, resolve_duplicate,
  await_created, submit, create_new, create_volume_unsynced, volume_response,
}
use civo_csi.Controller.Create.Writes.{named, lookup-none}
use civo_csi.Controller.Wait.Polls.{wait_answers}

-- The world after the listing and the read of the quota.
abbrev pub prepared : {W : Type 0} → Driver W → W → W
prepared d w = (d.civo_client.get_quota (d.civo_client.list_volumes w).1).1

module _ {W : Type 0} (host : Host W) (d : Driver W) (size : ℤ) where
  resolve-ne-panic : (v : Volume) (w : W) → (resolve_existing_volume host d v size w).0 ≢ panic
  unfolding resolve_existing_volume
  resolve-ne-panic v w = ground (arith, wait_answers host d v "available" 19 w)

  resolve-ok :
      (v : Volume) (w : W) (r : CsiVolume)
      → (resolve_existing_volume host d v size w).0 ≡ ok r
      → (v.size_gigabytes ≡ size) × (r ≡ volume_response v.id size)
  unfolding resolve_existing_volume
  resolve-ok v w r h = ground (arith, eqb_ℤ→eq v.size_gigabytes size)

  resolve_first-ne-panic :
      (vs : List Volume) (name : String) (w : W) → (resolve_first host d vs name size w).0 ≢ panic
  unfolding resolve_first
  resolve_first-ne-panic [] name w = ground arith
  resolve_first-ne-panic (v ∷ vs) name w =
      ground (arith, resolve-ne-panic v w, resolve_first-ne-panic vs name w)

  -- A response is that of the first volume of the name.
  pub resolve_first-some :
      (vs : List Volume) (name : String) (w : W) (r : CsiVolume)
      → (resolve_first host d vs name size w).0 ≡ ok (some r)
      → (v : Volume) × (find (named name) vs ≡ some v)
        × (v.size_gigabytes ≡ size)
        × (r ≡ volume_response v.id size)
  unfolding resolve_first
  resolve_first-some [] name w r h = ground arith
  resolve_first-some (v ∷ vs) name w r h = elim (Bool-cases (v.name == name)) [
    | inl same ↦ let (s, e) = resolve-ok v w r (ground arith) in (v, ground arith, s, e)
    | inr other ↦
        let (u, f, s, e) = resolve_first-some vs name w r (ground arith) in (u, ground arith, s, e)
  ]

  pub lookup-ne-panic :
      (name : String) (w : W) → (lookup_existing_by_name host d name size w).0 ≢ panic
  unfolding lookup_existing_by_name
  lookup-ne-panic name w = elim (Reply-cases (d.civo_client.list_volumes w).0) [
    | inl (vs, e) ↦ ground (arith, resolve_first-ne-panic vs name (d.civo_client.list_volumes w).1)
    | inr (x, e) ↦ ground arith
  ]

  pub lookup-some :
      (name : String) (w : W) (r : CsiVolume)
      → (lookup_existing_by_name host d name size w).0 ≡ ok (some r)
      → (vs : List Volume) × (v : Volume) × ((d.civo_client.list_volumes w).0 ≡ reply vs)
        × (find (named name) vs ≡ some v)
        × (v.size_gigabytes ≡ size)
        × (r ≡ volume_response v.id size)
  unfolding lookup_existing_by_name
  lookup-some name w r h = elim (Reply-cases (d.civo_client.list_volumes w).0) [
    | inl (vs, e) ↦
        let (v, f, s, q) =
          resolve_first-some vs name (d.civo_client.list_volumes w).1 r (ground arith) in
        (vs, v, e, f, s, q)
    | inr (x, e) ↦ ground arith
  ]

  -- A duplicate name that is resolved: the lookup after it answered.
  pub resolve_duplicate-ok :
      (name : String) (x : ExternalError) (w : W) (r : CsiVolume)
      → (resolve_duplicate host d name size x w).0 ≡ ok r
      → (x.is_duplicate_name ≡ true)
        × ((lookup_existing_by_name host d name size w).0 ≡ ok (some r))
  unfolding resolve_duplicate
  resolve_duplicate-ok name x w r h = ground arith

  -- If the lookup after a duplicate name gives no response, the error is that of NewVolume.
  pub resolve_duplicate-err :
      (name : String) (x : ExternalError) (w : W) (e : Error)
      → (resolve_duplicate host d name size x w).0 ≡ err e
      → e ≡ external x
  unfolding resolve_duplicate
  resolve_duplicate-err name x w e h = ground arith

  pub resolve_duplicate-ne-panic :
      (name : String) (x : ExternalError) (w : W)
      → (resolve_duplicate host d name size x w).0 ≢ panic
  unfolding resolve_duplicate
  resolve_duplicate-ne-panic name x w = ground (arith, lookup-ne-panic name w)

  pub await_created-ok :
      (id : String) (w : W) (r : CsiVolume)
      → (await_created host d id size w).0 ≡ ok r
      → (v : Volume) × ((d.civo_client.get_volume id w).0 ≡ reply v)
        × (r ≡ volume_response v.id size)
  unfolding await_created
  await_created-ok id w r h = elim (Reply-cases (d.civo_client.get_volume id w).0) [
    | inl (v, e) ↦ (v, e, ground arith)
    | inr (x, e) ↦ ground arith
  ]

  pub await_created-ne-panic : (id : String) (w : W) → (await_created host d id size w).0 ≢ panic
  unfolding await_created
  await_created-ne-panic id w = elim (Reply-cases (d.civo_client.get_volume id w).0) [
    | inl (v, e) ↦
        ground (arith, wait_answers host d v "available" 19 (d.civo_client.get_volume id w).1)
    | inr (x, e) ↦ ground arith
  ]

  submit-ne-panic : (name : String) (w : W) → (submit host d name size w).0 ≢ panic
  unfolding submit
  submit-ne-panic name w =
      let (r, w') = d.civo_client.new_volume (volume_config d name size) w in
      elim (Reply-cases (d.civo_client.new_volume (volume_config d name size) w).0) [
        | inl (id, e) ↦ ground (arith, await_created-ne-panic id w')
        | inr (x, e) ↦ ground (arith, resolve_duplicate-ne-panic name x w')
      ]

  create_new-ne-panic : (name : String) (w : W) → (create_new host d name size w).0 ≢ panic
  unfolding create_new
  create_new-ne-panic name w = elim (Reply-cases (d.civo_client.get_quota w).0) [
    | inl (q, e) ↦ ground (arith, submit-ne-panic name (d.civo_client.get_quota w).1)
    | inr (x, e) ↦ ground arith
  ]

  -- `createVolumeUnsynced` does not panic, whatever the API answers.
  pub create_volume_unsynced-ne-panic :
      (req : CreateVolumeRequest) (w : W) → (create_volume_unsynced host d req size w).0 ≢ panic
  unfolding create_volume_unsynced
  create_volume_unsynced-ne-panic req w =
      let (o, w') = lookup_existing_by_name host d req.name size w in
      ground (arith, lookup-ne-panic req.name w, create_new-ne-panic req.name w')

  -- Where a response comes from: the first lookup, or a submission after it found nothing.
  pub create_volume_unsynced-ok :
      (req : CreateVolumeRequest) (w : W) (r : CsiVolume)
      → (create_volume_unsynced host d req size w).0 ≡ ok r
      → let (o, w') = lookup_existing_by_name host d req.name size w in
        ((o ≡ ok (some r)) × ((create_volume_unsynced host d req size w).1 ≡ w'))
        ⊎ ((o ≡ ok none)
            × ((submit host d req.name size (prepared d w)).0 ≡ ok r)
            × (create_volume_unsynced host d req size w
                ≡ submit host d req.name size (prepared d w)))
  unfolding create_volume_unsynced create_new
  create_volume_unsynced-ok req w r h =
      let (o, w') = lookup_existing_by_name host d req.name size w in
      ground (arith, λ (e : o ≡ ok none). lookup-none host d req.name size w e)

  pub submit-ok :
      (name : String) (w : W) (r : CsiVolume)
      → (submit host d name size w).0 ≡ ok r
      → let (a, w') = d.civo_client.new_volume (volume_config d name size) w in
        ((id : String) × (a ≡ reply id) × ((await_created host d id size w').0 ≡ ok r))
        ⊎ ((x : ExternalError) × (a ≡ failed x)
            × ((resolve_duplicate host d name size x w').0 ≡ ok r))
  unfolding submit
  submit-ok name w r h =
      elim (Reply-cases (d.civo_client.new_volume (volume_config d name size) w).0) [
        | inl (id, e) ↦ inl (id, e, ground arith)
        | inr (x, e) ↦ inr (x, e, ground arith)
      ]

  lookup_some-capacity :
      (name : String) (w : W) (r : CsiVolume)
      → (lookup_existing_by_name host d name size w).0 ≡ ok (some r)
      → r.capacity_bytes ≡ capacity_of size
  lookup_some-capacity name w r h =
      let (vs, v, l, f, s, e) = lookup-some name w r h in ap (λ (r : CsiVolume). r.capacity_bytes) e

  submit-capacity :
      (name : String) (w : W) (r : CsiVolume)
      → (submit host d name size w).0 ≡ ok r
      → r.capacity_bytes ≡ capacity_of size
  submit-capacity name w r h =
      let (a, w') = d.civo_client.new_volume (volume_config d name size) w in
      elim (submit-ok name w r h) [
        | inl (id, e, o) ↦
            let (v, g, q) = await_created-ok id w' r o in ap (λ (r : CsiVolume). r.capacity_bytes) q
        | inr (x, e, o) ↦ lookup_some-capacity name w' r (resolve_duplicate-ok name x w' r o).1
      ]

  -- The capacity of a response is the size that was asked for, in bytes.
  pub create_volume_unsynced-capacity :
      (req : CreateVolumeRequest) (w : W) (r : CsiVolume)
      → (create_volume_unsynced host d req size w).0 ≡ ok r
      → r.capacity_bytes ≡ capacity_of size
  create_volume_unsynced-capacity req w r h = elim (create_volume_unsynced-ok req w r h) [
    | inl (found, _) ↦ lookup_some-capacity req.name w r found
    | inr (missing, made, _) ↦ submit-capacity req.name (prepared d w) r made
  ]
