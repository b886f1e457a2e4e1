-- ===== src/Controller/Create/Writes.antt =====
-- What `createVolumeUnsynced` writes through the API, over a recorded client.
use civo_csi.Base.{
  String, ◌≡◌, refl, none, some, List, [], ◌∷◌, inl, inr, ◌⊎◌, arith, Bool-cases, ◌==◌, Bool, false,
  any,
}
use civo_csi.Base.Int.{ℤ, ◌≤ℤ◌, ◌<ℤ◌, ltb_ℤ, leb_ℤ}
use civo_csi.Base.Int64.{sub}
use civo_csi.Action.{ExternalError, ok, Reply, reply, Reply-cases, Outcome-cases}
use civo_csi.Api.{Volume, Quota, Clienter, Logged, writes, created}
use civo_csi.Host.{Host, recorded_host}
use civo_csi.Driver.{Driver, watched}
use civo_csi.Csi.{CreateVolumeRequest}
use civo_csi.Controller.Create.{
  resolve_existing_volume, resolve_first, lookup_existing_by_name, check_quota, volume_config,
  resolve_duplicate, await_created, submit, create_new, create_volume_unsynced,
  civo_volume_available_retries,
}
use civo_csi.Controller.Wait.Frame.{writes-wait}

module _ {W : Type 0} (host : Host W) (c : Clienter W) (d : Driver (Logged W)) where
  abbrev h : Host (Logged W)
  h = recorded_host host

  abbrev d' : Driver (Logged W)
  d' = watched c d

  writes-resolve :
      (v : Volume) (size : ℤ) (w : Logged W)
      → writes (resolve_existing_volume h d' v size w).1.1 ≡ writes w.1
  unfolding resolve_existing_volume
  writes-resolve v size w =
      ground (arith, writes-wait host c d v "available" civo_volume_available_retries w)

  writes-resolve_first :
      (vs : List Volume) (name : String) (size : ℤ) (w : Logged W)
      → writes (resolve_first h d' vs name size w).1.1 ≡ writes w.1
  unfolding resolve_first
  writes-resolve_first [] name size w = refl
  writes-resolve_first (v ∷ vs) name size w =
      ground (arith, writes-resolve v size w, writes-resolve_first vs name size w)

  writes-lookup :
      (name : String) (size : ℤ) (w : Logged W)
      → writes (lookup_existing_by_name h d' name size w).1.1 ≡ writes w.1
  unfolding lookup_existing_by_name
  writes-lookup name size w = elim (Reply-cases (c.list_volumes w.0).0) [
    | inl (vs, e) ↦
        ground (arith, writes-resolve_first vs name size (d'.civo_client.list_volumes w).1)
    | inr (x, e) ↦ ground arith
  ]

  writes-resolve_duplicate :
      (name : String) (size : ℤ) (x : ExternalError) (w : Logged W)
      → writes (resolve_duplicate h d' name size x w).1.1 ≡ writes w.1
  unfolding resolve_duplicate
  writes-resolve_duplicate name size x w = ground (arith, writes-lookup name size w)

  writes-await_created :
      (id : String) (size : ℤ) (w : Logged W)
      → writes (await_created h d' id size w).1.1 ≡ writes w.1
  unfolding await_created
  writes-await_created id size w = elim (Reply-cases (c.get_volume id w.0).0) [
    | inl (v, e) ↦ ground (
      arith,
      writes-wait host c d v "available" civo_volume_available_retries
          (d'.civo_client.get_volume id w).1,
    )
    | inr (x, e) ↦ ground arith
  ]

-- The quota has the space and one more volume to give.
pub record HasRoom (q : Quota) (size : ℤ) : Type 0 where
  pub space : size ≤ℤ sub q.disk_gigabytes_limit q.disk_gigabytes_usage
  pub volumes : q.disk_volume_count_usage <ℤ q.disk_volume_count_limit

abbrev short : Quota → ℤ → Bool
short q size = ltb_ℤ (sub q.disk_gigabytes_limit q.disk_gigabytes_usage) size

abbrev full : Quota → Bool
full q = leb_ℤ q.disk_volume_count_limit q.disk_volume_count_usage

abbrev pub named : String → Volume → Bool
named name v = v.name == name

module _ {W : Type 0} (host : Host W) (d : Driver W) where
  -- What `resolve_first` answers and leaves if it finds nothing.
  resolve_first-none :
      (vs : List Volume) (name : String) (size : ℤ) (w : W)
      → (resolve_first host d vs name size w).0 ≡ ok none
      → (any (named name) vs ≡ false) × ((resolve_first host d vs name size w).1 ≡ w)
  unfolding resolve_first
  resolve_first-none [] name size w e = (refl, refl)
  resolve_first-none (v ∷ vs) name size w e = ground (arith, resolve_first-none vs name size w)

  pub lookup-none :
      (name : String) (size : ℤ) (w : W)
      → (lookup_existing_by_name host d name size w).0 ≡ ok none
      → (vs : List Volume) × ((d.civo_client.list_volumes w).0 ≡ reply vs)
        × (any (named name) vs ≡ false)
        × ((lookup_existing_by_name host d name size w).1 ≡ (d.civo_client.list_volumes w).1)
  unfolding lookup_existing_by_name
  lookup-none name size w e = elim (Reply-cases (d.civo_client.list_volumes w).0) [
    | inl (vs, r) ↦ (
      vs,
      r,
      ground (arith, resolve_first-none vs name size (d.civo_client.list_volumes w).1),
      ground (arith, resolve_first-none vs name size (d.civo_client.list_volumes w).1),
    )
    | inr (x, r) ↦ ground arith
  ]

module _ {W : Type 0} (host : Host W) (c : Clienter W) (d : Driver (Logged W)) where
  abbrev asked : String → ℤ → Logged W → Logged W
  asked name size w =
      ((watched c d).civo_client.new_volume (volume_config (watched c d) name size) w).1

  writes-submit :
      (name : String) (size : ℤ) (w : Logged W)
      → let config = volume_config (watched c d) name size in
        writes (submit (recorded_host host) (watched c d) name size w).1.1
        ≡ created config (c.new_volume config w.0).0 ∷ writes w.1
  unfolding submit
  writes-submit name size w =
      elim (Reply-cases (c.new_volume (volume_config (watched c d) name size) w.0).0) [
        | inl (id, e) ↦ ground (arith, writes-await_created host c d id size (asked name size w))
        | inr (x, e) ↦
            ground (arith, writes-resolve_duplicate host c d name size x (asked name size w))
      ]

  -- With the volumes listed and the quota read, at most one NewVolume follows.
  writes-create_new :
      (name : String) (size : ℤ) (w : Logged W)
      → let out = create_new (recorded_host host) (watched c d) name size w in
        (writes out.1.1 ≡ writes w.1)
        ⊎ ((r : Reply String) × (q : Quota) × (writes out.1.1
              ≡ created (volume_config (watched c d) name size) r ∷ writes w.1)
            × ((c.get_quota w.0).0 ≡ reply q)
            × HasRoom q size)
  unfolding create_new check_quota
  writes-create_new name size w = elim (Reply-cases (c.get_quota w.0).0) [
    | inl (q, e) ↦ elim (Bool-cases (short q size)) [
      | inl no_space ↦ inl (ground arith)
      | inr space ↦ elim (Bool-cases (full q)) [
        | inl no_volume ↦ inl (ground arith)
        | inr volume ↦ inr (
          (c.new_volume (volume_config (watched c d) name size) (c.get_quota w.0).1).0,
          q,
          ground (arith, writes-submit name size ((watched c d).civo_client.get_quota w).1),
          e,
          ground arith,
        )
      ]
    ]
    | inr (x, e) ↦ inl (ground arith)
  ]

  -- From a fresh record, `createVolumeUnsynced` writes nothing, or it writes exactly one NewVolume:
  -- for the requested name and size in the driver's region, namespace and cluster and of its
  -- volume type, after a listing
  -- that has no volume of that name and a quota that has room for it.
  pub create_volume_unsynced-writes :
      (req : CreateVolumeRequest) (size : ℤ) (w : W)
      → let out = create_volume_unsynced (recorded_host host) (watched c d) req size (w, []) in
        (writes out.1.1 ≡ [])
        ⊎ ((r : Reply String) × (q : Quota) × (vs : List Volume) × (writes out.1.1
              ≡ created
                  (record {
                    name = req.name;
                    region = d.region;
                    namespace = d.namespace;
                    cluster_id = d.cluster_id;
                    size_gigabytes = size;
                    volume_type = d.cluster_volume_type;
                  })
                  r
                ∷ [])
            × ((c.list_volumes w).0 ≡ reply vs)
            × (any (named req.name) vs ≡ false)
            × ((c.get_quota (c.list_volumes w).1).0 ≡ reply q)
            × HasRoom q size)
  unfolding create_volume_unsynced
  create_volume_unsynced-writes req size w =
      let found =
        lookup_existing_by_name (recorded_host host) (watched c d) req.name size (w, []) in
      elim (Outcome-cases found.0) [
        | inr (inl (x, e)) ↦ inl (ground (arith, writes-lookup host c d req.name size (w, [])))
        | inr (inr e) ↦ inl (ground (arith, writes-lookup host c d req.name size (w, [])))
        | inl (some v, e) ↦ inl (ground (arith, writes-lookup host c d req.name size (w, [])))
        | inl (none, e) ↦
            let (vs, listed_as, free, at) =
              lookup-none (recorded_host host) (watched c d) req.name size (w, []) e in
            let listing : Logged W = ((watched c d).civo_client.list_volumes (w, [])).1 in
            elim (writes-create_new req.name size listing) [
              | inl nothing ↦ inl (ground arith)
              | inr (r, q, one, quota, room) ↦
                  inr (r, q, vs, ground arith, listed_as, free, quota, room)
            ]
      ]
