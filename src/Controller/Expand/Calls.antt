-- ===== src/Controller/Expand/Calls.antt =====
-- When `ControllerExpandVolume` calls ResizeVolume, what it answers, and when it panics.
use civo_csi.Base.{
  ◌↔◌, string_dec, Option-cases, String, ◌≡◌, ◌≢◌, some, [], ◌∷◌, inl, inr, arith, ◌==◌, Bool, true,
  ◌&&◌, if◌then◌else◌,
}
use civo_csi.Base.Int.{ℤ, ltb_ℤ}
use civo_csi.Action.{Outcome, ok, panic, Reply, reply, failed, Reply-cases, ExternalError}
use civo_csi.Api.{Volume, Clienter, Logged, writes, resized}
use civo_csi.Host.{Host, recorded_host}
use civo_csi.Driver.{Driver, watched}
use civo_csi.Csi.{ExpandRequest, CapacityRange}
use civo_csi.Controller.Size.{desired_gigabytes, get_vol_size_in_bytes}
use civo_csi.Controller.Statuses.{statuses}
use civo_csi.Controller.Wait.{wait_for_volume_status}
use civo_csi.Controller.Wait.Polls.{wait_answers}
use civo_csi.Controller.Wait.Frame.{writes-wait}
use civo_csi.Controller.Expand.{
  expand_response, read_resized, resize, expand_found, controller_expand_volume,
}

-- The volume is to be resized: it is available, and smaller than what is asked for.
abbrev pub calls_resize : ℤ → Volume → Bool
calls_resize size v = v.status == "available" && ltb_ℤ v.size_gigabytes size

abbrev pub expand_size : CapacityRange → ℤ
expand_size range = desired_gigabytes (get_vol_size_in_bytes (some range))

module _ {W : Type 0} (host : Host W) (c : Clienter W) (d : Driver (Logged W)) where
  writes-read_resized :
      (id : String) (w : Logged W) → writes (read_resized (watched c d) id w).1.1 ≡ writes w.1
  unfolding read_resized
  writes-read_resized id w = elim (Reply-cases (c.get_volume id w.0).0) [
    | inl (v, e) ↦ ground arith
    | inr (x, e) ↦ ground arith
  ]

  writes-resize :
      (id : String) (v : Volume) (size : ℤ) (w : Logged W)
      → writes (resize (recorded_host host) (watched c d) id v size w).1.1
        ≡ resized id size (c.resize_volume id size w.0).0 ∷ writes w.1
  unfolding resize
  writes-resize id v size w =
      let asked = ((watched c d).civo_client.resize_volume id size w).1 in
      let waited =
        (wait_for_volume_status (recorded_host host) (watched c d) v "available" 40 asked).1 in
      elim (Reply-cases (c.resize_volume id size w.0).0) [
        | inl (_, e) ↦
            ground
              (arith, writes-wait host c d v "available" 40 asked, writes-read_resized id waited)
        | inr (_, e) ↦ ground arith
      ]

  writes-expand_found :
      (id : String) (v : Volume) (size : ℤ) (w : Logged W)
      → writes (expand_found (recorded_host host) (watched c d) id v size w).1.1 ≡ (
          if calls_resize size v
          then resized id size (c.resize_volume id size w.0).0 ∷ writes w.1
          else writes w.1)
  unfolding expand_found
  writes-expand_found id v size w = ground (arith, statuses, writes-resize id v size w)

  -- With a capacity range and a volume that is found, ControllerExpandVolume calls ResizeVolume
  -- once, to the requested size, if the volume is available and smaller, and not at all otherwise;
  -- nothing else is written.
  pub expand_writes :
      (req : ExpandRequest) (range : CapacityRange) (v : Volume) (w : W)
      → req.volume_id ≢ ""
      → req.capacity_range ≡ some range
      → (c.get_volume req.volume_id w).0 ≡ reply v
      → let size = expand_size range in
        writes (controller_expand_volume (recorded_host host) (watched c d) req (w, [])).1.1 ≡ (
          if calls_resize size v
          then resized req.volume_id size
              (c.resize_volume req.volume_id size (c.get_volume req.volume_id w).1).0
            ∷ []
          else [])
  unfolding controller_expand_volume
  expand_writes req range v w named er ev =
      let read = ((watched c d).civo_client.get_volume req.volume_id (w, [])).1 in
      ground (arith, writes-expand_found req.volume_id v (expand_size range) read)

-- What ControllerExpandVolume does after the resize was accepted and the volume became available.
module _ {W : Type 0} (host : Host W) (d : Driver W) (req : ExpandRequest) (range : CapacityRange)
    (v : Volume) (w : W) where
  abbrev read : W
  read = (d.civo_client.get_volume req.volume_id w).1

  abbrev accepted : Reply (Unit {0}) × W
  accepted = d.civo_client.resize_volume req.volume_id (expand_size range) read

  abbrev waited : Outcome Bool × W
  waited = wait_for_volume_status host d v "available" 40 accepted.1

  found_resizes :
      calls_resize (expand_size range) v ≡ true
      → expand_found host d req.volume_id v (expand_size range) read
        ≡ resize host d req.volume_id v (expand_size range) read
  unfolding expand_found
  found_resizes small = ground (arith, statuses)

  resize_reads :
      accepted.0 ≡ reply tt
      → waited.0 ≡ ok true
      → resize host d req.volume_id v (expand_size range) read
        ≡ read_resized d req.volume_id waited.1
  unfolding resize
  resize_reads ea ew = ground arith

  expand_reads :
      req.volume_id ≢ ""
      → req.capacity_range ≡ some range
      → (d.civo_client.get_volume req.volume_id w).0 ≡ reply v
      → calls_resize (expand_size range) v ≡ true
      → accepted.0 ≡ reply tt
      → waited.0 ≡ ok true
      → controller_expand_volume host d req w ≡ read_resized d req.volume_id waited.1
  unfolding controller_expand_volume
  expand_reads named er ev small ea ew = ground (arith, found_resizes small, resize_reads ea ew)

  -- For an available volume that is too small, a resize that is accepted and a wait that succeeds,
  -- ControllerExpandVolume answers the capacity of the volume as it is read last.
  expand_answers :
      (u : Volume)
      → req.volume_id ≢ ""
      → req.capacity_range ≡ some range
      → (d.civo_client.get_volume req.volume_id w).0 ≡ reply v
      → calls_resize (expand_size range) v ≡ true
      → accepted.0 ≡ reply tt
      → waited.0 ≡ ok true
      → (d.civo_client.get_volume req.volume_id waited.1).0 ≡ reply u
      → (controller_expand_volume host d req w).0 ≡ ok (expand_response u.size_gigabytes)
  unfolding read_resized
  expand_answers u named er ev small ea ew eu =
      rw (expand_reads named er ev small ea ew) (ground arith)

  resize_panics :
      (resize host d req.volume_id v (expand_size range) read).0 ≡ panic
      → (accepted.0 ≡ reply tt)
        × (waited.0 ≡ ok true)
        × ((x : ExternalError) × ((d.civo_client.get_volume req.volume_id waited.1).0 ≡ failed x))
  unfolding resize read_resized
  resize_panics h = elim (Reply-cases accepted.0) [
    | inr (x, e) ↦ ground arith
    | inl (_, e) ↦ elim (wait_answers host d v "available" 39 accepted.1) [
      | inr (x, e') ↦ ground arith
      | inl e' ↦ elim (Reply-cases (d.civo_client.get_volume req.volume_id waited.1).0) [
        | inl (u, e'') ↦ ground arith
        | inr (x, e'') ↦ (e, e', (x, e''))
      ]
    ]
  ]

  found_panics :
      (expand_found host d req.volume_id v (expand_size range) read).0 ≡ panic
      → (calls_resize (expand_size range) v ≡ true)
        × ((resize host d req.volume_id v (expand_size range) read).0 ≡ panic)
  unfolding expand_found
  found_panics h = ground (arith, statuses)

module _ {W : Type 0} (host : Host W) (d : Driver W) (req : ExpandRequest) (w : W) where
  -- The last read of the volume fails, after a resize that was called for and accepted, and a wait
  -- that succeeded.
  abbrev pub LosesVolume : CapacityRange → Volume → Type 0
  LosesVolume range v =
      (calls_resize (expand_size range) v ≡ true)
      × ((accepted host d req range v w).0 ≡ reply tt)
      × ((waited host d req range v w).0 ≡ ok true)
      × ((x : ExternalError) × ((d.civo_client.get_volume req.volume_id
              (waited host d req range v w).1).0
            ≡ failed x))

  -- ControllerExpandVolume panics exactly if the request names a volume and has a capacity range,
  -- the volume is found, available and too small, the resize is accepted, the wait for it succeeds,
  -- and then the last read of the volume fails: on no other path.
  pub expand_panics : ((controller_expand_volume host d req w).0 ≡ panic) ↔ (
      (range : CapacityRange) × (v : Volume) × (req.volume_id ≢ "")
      × (req.capacity_range ≡ some range)
      × ((d.civo_client.get_volume req.volume_id w).0 ≡ reply v)
      × LosesVolume range v)
  unfolding controller_expand_volume read_resized
  expand_panics = (
    λ h. elim (string_dec req.volume_id "") [
      | yes unnamed ↦ ground arith
      | no named ↦ elim (Reply-cases (d.civo_client.get_volume req.volume_id w).0) [
        | inr (x, e) ↦ ground arith
        | inl (v, e) ↦ elim (Option-cases req.capacity_range) [
          | inl lacking ↦ ground arith
          | inr (range, given) ↦
              let (small, panics) = found_panics host d req range v w (ground arith) in
              let (ea, ew, lost) = resize_panics host d req range v w panics in
              (range, v, named, given, e, (small, ea, ew, lost))
        ]
      ]
    ],
    λ (range, v, named, given, e, (small, ea, ew, (x, ex))).
        rw (expand_reads host d req range v w named given e small ea ew) (ground arith),
  )
