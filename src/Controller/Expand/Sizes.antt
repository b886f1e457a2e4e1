-- ===== src/Controller/Expand/Sizes.antt =====
-- The sizes of the volumes under `ControllerExpandVolume`.
use civo_csi.Base.{
  ℕ, String, ◌==◌, ◌≡◌, ◌≢◌, ◌∙◌, ◌⊎◌, inl, inr, false, Option, some, arith, string_dec, Bool-cases,
  Option-cases,
}
use civo_csi.Base.Int.{ℤ, ◌≤ℤ◌, leb_ℤ}
use civo_csi.Action.{ok, reply, Reply-cases, Outcome-cases}
use civo_csi.Api.{Volume, Clienter}
use civo_csi.Csi.{ExpandRequest, ExpandResponse}
use civo_csi.Host.{Host}
use civo_csi.Driver.{Driver}
use civo_csi.Controller.Size.{capacity_of, desired_gigabytes, get_vol_size_in_bytes}
use civo_csi.Controller.Wait.{wait_for_volume_status}
use civo_csi.Controller.Wait.Keeps.{wait_keeps}
use civo_csi.Controller.Expand.{read_resized, resize, expand_found, controller_expand_volume}

abbrev pub Sizes : Type 0
Sizes = String → Option ℤ

-- Laws of an API in which nobody else resizes a volume: a read says the size and changes none, and a
-- resize gives the volume the size that it asks for, at once or not at all, and no other volume.
pub record KeepsSizes {W : Type 0} (host : Host W) (c : Clienter W) (sized : W → Sizes)
    : Type 0 where
  pub get_keeps : (id : String) (w : W) (v : String) → sized (c.get_volume id w).1 v ≡ sized w v
  pub sleep_keeps : (seconds : ℕ) (w : W) (v : String) → sized (host.sleep seconds w) v ≡ sized w v
  pub reads :
      (id : String) (w : W) (v : Volume)
      → (c.get_volume id w).0 ≡ reply v
      → sized w id ≡ some v.size_gigabytes
  pub resize_sets :
      (id : String) (n : ℤ) (w : W)
      → (sized (c.resize_volume id n w).1 id ≡ sized w id)
        ⊎ (sized (c.resize_volume id n w).1 id ≡ some n)
  pub resize_elsewhere :
      (id : String) (n : ℤ) (w : W) (v : String)
      → v ≢ id
      → sized (c.resize_volume id n w).1 v ≡ sized w v

-- A size that the volume has, not below another.
abbrev pub AtLeast : ℤ → Option ℤ → Type 0
AtLeast a o = (b : ℤ) × (o ≡ some b) × (a ≤ℤ b)

module _ {W : Type 0} (host : Host W) (d : Driver W) (sized : W → Sizes)
    (laws : KeepsSizes host d.civo_client sized) where
  sized-wait :
      (v : Volume) (n : ℕ) (w : W) (u : String)
      → sized (wait_for_volume_status host d v "available" n w).1 u ≡ sized w u
  sized-wait v n w u =
      wait_keeps host d (λ (x : W). sized x u) (λ id x. laws.get_keeps id x u)
        (λ s x. laws.sleep_keeps s x u) v "available" n w

  sized-read_resized :
      (id : String) (w : W) (u : String) → sized (read_resized d id w).1 u ≡ sized w u
  unfolding read_resized
  sized-read_resized id w u = elim (Reply-cases (d.civo_client.get_volume id w).0) [
    | inl (v, e) ↦ ground (arith, laws.get_keeps id w u)
    | inr (x, e) ↦ ground (arith, laws.get_keeps id w u)
  ]

  -- After the resize nothing changes a size.
  sized-resize :
      (id : String) (v : Volume) (size : ℤ) (w : W) (u : String)
      → sized (resize host d id v size w).1 u ≡ sized (d.civo_client.resize_volume id size w).1 u
  unfolding resize
  sized-resize id v size w u =
      let w₁ = (d.civo_client.resize_volume id size w).1 in
      let w₂ = (wait_for_volume_status host d v "available" 40 w₁).1 in
      elim (Reply-cases (d.civo_client.resize_volume id size w).0) [
        | inl (_, e) ↦ ground (arith, sized-wait v 40 w₁ u, sized-read_resized id w₂ u)
        | inr (x, e) ↦ ground arith
      ]

  resize-grows :
      (id : String) (v : Volume) (size : ℤ) (w : W) (u : String) (a : ℤ)
      → sized w id ≡ some v.size_gigabytes
      → leb_ℤ size v.size_gigabytes ≡ false
      → sized w u ≡ some a
      → AtLeast a (sized (resize host d id v size w).1 u)
  resize-grows id v size w u a seen larger had = elim (string_dec u id) [
    | no apart ↦
        (a, sized-resize id v size w u ∙ laws.resize_elsewhere id size w u apart ∙ had, omega arith)
    | yes same ↦ elim (laws.resize_sets id size w) [
      | inl kept ↦ (a, ground (arith, sized-resize id v size w u), omega arith)
      | inr set ↦ (size, ground (arith, sized-resize id v size w u), ground arith)
    ]
  ]

  expand_found-grows :
      (id : String) (v : Volume) (size : ℤ) (w : W) (u : String) (a : ℤ)
      → sized w id ≡ some v.size_gigabytes
      → sized w u ≡ some a
      → AtLeast a (sized (expand_found host d id v size w).1 u)
  unfolding expand_found
  expand_found-grows id v size w u a seen had = elim (Bool-cases (v.status == "resizing")) [
    | inl busy ↦ (a, ground arith, omega arith)
    | inr idle ↦ elim (Bool-cases (leb_ℤ size v.size_gigabytes)) [
      | inl enough ↦ (a, ground arith, omega arith)
      | inr larger ↦ elim (Bool-cases (v.status == "available")) [
        | inl free ↦ rw (idle, larger, free) (resize-grows id v size w u a seen larger had)
        | inr taken ↦ (a, ground arith, omega arith)
      ]
    ]
  ]

  pub expand_grows :
      (req : ExpandRequest) (w : W) (u : String) (a : ℤ)
      → sized w u ≡ some a
      → AtLeast a (sized (controller_expand_volume host d req w).1 u)
  unfolding controller_expand_volume
  expand_grows req w u a had =
      let id = req.volume_id in
      let w₁ = (d.civo_client.get_volume id w).1 in
      let same = laws.get_keeps id w in
      elim (Bool-cases (id == "")) [
        | inl unnamed ↦ (a, ground arith, omega arith)
        | inr named ↦ elim (Reply-cases (d.civo_client.get_volume id w).0) [
          | inr (x, e) ↦ (a, ground (arith, same u), omega arith)
          | inl (v, e) ↦ elim (Option-cases req.capacity_range) [
            | inl lacking ↦ (a, ground (arith, same u), omega arith)
            | inr (range, given) ↦
                let size = desired_gigabytes (get_vol_size_in_bytes req.capacity_range) in
                let (b, has, above) =
                  expand_found-grows id v size w₁ u a (same id ∙ laws.reads id w v e)
                    (same u ∙ had) in
                (b, ground arith, above)
          ]
        ]
      ]

  read_resized-shows :
      (id : String) (w : W) (r : ExpandResponse)
      → (read_resized d id w).0 ≡ ok r
      → (b : ℤ) × (sized (read_resized d id w).1 id ≡ some b) × (r.capacity_bytes ≡ capacity_of b)
  unfolding read_resized
  read_resized-shows id w r h = elim (Reply-cases (d.civo_client.get_volume id w).0) [
    | inl (v, e) ↦ (
      v.size_gigabytes,
      ground (arith, laws.get_keeps id w id, laws.reads id w v e),
      ground arith,
    )
    | inr (x, e) ↦ ground arith
  ]

  resize-ok :
      (id : String) (v : Volume) (size : ℤ) (w : W) (r : ExpandResponse)
      → (resize host d id v size w).0 ≡ ok r
      → (w' : W) × (resize host d id v size w ≡ read_resized d id w')
  unfolding resize
  resize-ok id v size w r h =
      let w₁ = (d.civo_client.resize_volume id size w).1 in
      let (o, w₂) = wait_for_volume_status host d v "available" 40 w₁ in
      (
        w₂,
        elim (Reply-cases (d.civo_client.resize_volume id size w).0) [
          | inr (x, e) ↦ ground arith
          | inl (_, e) ↦ elim (Outcome-cases o) [
            | inl (b, e') ↦ ground arith
            | inr (inl (x, e')) ↦ ground arith
            | inr (inr e') ↦ ground arith
          ]
        ],
      )

  pub expand_found-shows :
      (id : String) (v : Volume) (size : ℤ) (w : W) (r : ExpandResponse)
      → sized w id ≡ some v.size_gigabytes
      → (expand_found host d id v size w).0 ≡ ok r
      → (b : ℤ) × (sized (expand_found host d id v size w).1 id ≡ some b)
        × (r.capacity_bytes ≡ capacity_of b)
  unfolding expand_found
  expand_found-shows id v size w r seen h = elim (Bool-cases (v.status == "resizing")) [
    | inl busy ↦ ground arith
    | inr idle ↦ elim (Bool-cases (leb_ℤ size v.size_gigabytes)) [
      | inl enough ↦ (v.size_gigabytes, ground arith, ground arith)
      | inr larger ↦ elim (Bool-cases (v.status == "available")) [
        | inr taken ↦ ground arith
        | inl free ↦
            let (w', at) = resize-ok id v size w r (ground arith) in
            let (b, has, says) = read_resized-shows id w' r (ground arith) in
            (b, ground arith, says)
      ]
    ]
  ]
