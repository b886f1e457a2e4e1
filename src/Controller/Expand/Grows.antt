-- ===== src/Controller/Expand/Grows.antt =====
-- Sequences of calls of `ControllerExpandVolume`, and the size that an answer states.
use civo_csi.Base.{
  String, ◌==◌, ◌≡◌, ◌∙◌, inl, inr, Bool-cases, Option-cases, some, List, [], ◌∷◌, arith,
}
use civo_csi.Base.Int.{ℤ}
use civo_csi.Action.{ok, Reply-cases}
use civo_csi.Csi.{ExpandRequest, ExpandResponse}
use civo_csi.Host.{Host}
use civo_csi.Driver.{Driver}
use civo_csi.Controller.Size.{capacity_of, desired_gigabytes, get_vol_size_in_bytes}
use civo_csi.Controller.Expand.{controller_expand_volume}
use civo_csi.Controller.Expand.Sizes.{Sizes, KeepsSizes, AtLeast, expand_grows, expand_found-shows}

module _ {W : Type 0} (host : Host W) (d : Driver W) where
  abbrev pub run_expand : List ExpandRequest → W → W
  run_expand [] w = w
  run_expand (req ∷ reqs) w = run_expand reqs (controller_expand_volume host d req w).1

module _ {W : Type 0} (host : Host W) (d : Driver W) (sized : W → Sizes)
    (laws : KeepsSizes host d.civo_client sized) where
  -- Over an API in which nobody else resizes a volume and a resize is carried out in full or not at
  -- all, a volume of a known size has at least that size after any sequence of calls of
  -- ControllerExpandVolume, for whatever volumes and capacity ranges and with whatever outcomes: an
  -- expansion never shrinks a volume.
  pub expands_grow :
      (reqs : List ExpandRequest) (w : W) (id : String) (a : ℤ)
      → sized w id ≡ some a
      → AtLeast a (sized (run_expand host d reqs w) id)
  expands_grow [] w id a had = (a, had, omega arith)
  expands_grow (req ∷ reqs) w id a had =
      let (b, has, above) = expand_grows host d sized laws req w id a had in
      let (c, ends, over) = expands_grow reqs (controller_expand_volume host d req w).1 id b has in
      (c, ends, omega arith)

  -- Over an API in which nobody else resizes a volume, a successful ControllerExpandVolume answers
  -- with the capacity of the size that the volume has when the call ends, on the branch that resizes
  -- it and on the one that finds it large enough.
  pub expand_shows :
      (req : ExpandRequest) (w : W) (r : ExpandResponse)
      → (controller_expand_volume host d req w).0 ≡ ok r
      → (b : ℤ) × (sized (controller_expand_volume host d req w).1 req.volume_id ≡ some b)
        × (r.capacity_bytes ≡ capacity_of b)
  unfolding controller_expand_volume
  expand_shows req w r h =
      let id = req.volume_id in
      let w₁ = (d.civo_client.get_volume id w).1 in
      elim (Bool-cases (id == "")) [
        | inl unnamed ↦ ground arith
        | inr named ↦ elim (Reply-cases (d.civo_client.get_volume id w).0) [
          | inr (x, e) ↦ ground arith
          | inl (v, e) ↦ elim (Option-cases req.capacity_range) [
            | inl lacking ↦ ground arith
            | inr (range, given) ↦
                let size = desired_gigabytes (get_vol_size_in_bytes req.capacity_range) in
                let (b, has, says) =
                  expand_found-shows host d sized laws id v size w₁ r
                    (laws.get_keeps id w id ∙ laws.reads id w v e) (ground arith) in
                (b, ground arith, says)
          ]
        ]
      ]
