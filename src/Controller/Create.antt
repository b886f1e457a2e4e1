-- ===== src/Controller/Create.antt =====
-- `CreateVolume`, `createVolumeUnsynced`, `resolveExistingVolume`, `lookupExistingByName`
pub mod Writes
pub mod Response
pub mod Requests
pub mod Names
pub mod Shared
use civo_csi.Base.{
  String, ℕ, ◌==◌, Option, none, some, true, false, Bool, not, List, [], ◌∷◌, if◌then◌else◌, inl,
  inr,
}
use civo_csi.Base.Int.{ℤ, ltb_ℤ, leb_ℤ, eqb_ℤ}
use civo_csi.Base.Int64.{sub}
use civo_csi.Action.{
  Action, Error, ExternalError, status, wrapped, external, text_arg, int_arg, end, invalid_argument,
  already_exists, unavailable, out_of_range, reply, failed, ◌>>=◌, ◌>>◌, pure, raise, raise_if,
  call, call_or, try, attempt,
}
use civo_csi.Api.{Volume, VolumeConfig, Quota}
use civo_csi.Csi.{
  AccessMode, single_node_writer, single_node_single_writer, single_node_reader_only, AccessType,
  block, VolumeCapability, mode_of, CreateVolumeRequest, CsiVolume,
}
use civo_csi.Host.{Host}
use civo_csi.Driver.{Driver}
use civo_csi.Controller.Size.{get_vol_size_in_bytes, desired_gigabytes, capacity_of}
use civo_csi.Controller.Wait.{wait_for_volume_status}

abbrev pub civo_volume_available_retries : ℕ
civo_volume_available_retries = 20

-- `supportedAccessModes`
abbrev pub supported_access_mode : AccessMode → Bool
supported_access_mode single_node_writer = true
supported_access_mode single_node_single_writer = true
supported_access_mode single_node_reader_only = true
supported_access_mode _ = false

abbrev pub is_block : AccessType → Bool
is_block block = true
is_block _ = false

abbrev pub no_capabilities : Option (List VolumeCapability) → Bool
no_capabilities (some (_ ∷ _)) = false
no_capabilities _ = true

abbrev pub capabilities : Option (List VolumeCapability) → List VolumeCapability
capabilities none = []
capabilities (some cs) = cs

abbrev pub invalid : String → Error
invalid message = status invalid_argument message end

-- The loop over the requested capabilities
unfoldable pub check_capabilities : {W : Type 0} → List VolumeCapability → Action W (Unit {0})
check_capabilities [] = pure tt
check_capabilities (c ∷ cs) = do
  raise_if (not (supported_access_mode (mode_of c)))
      (invalid "CreateVolume access mode isn't supported")
  raise_if (is_block c.access_type)
      (invalid "CreateVolume block types aren't supported, only mount types")
  check_capabilities cs

abbrev pub desired_size : CreateVolumeRequest → ℤ
desired_size req = desired_gigabytes (get_vol_size_in_bytes req.capacity_range)

abbrev pub volume_response : String → ℤ → CsiVolume
volume_response id size = record { volume_id = id; capacity_bytes = capacity_of size }

unfoldable pub check_quota : {W : Type 0} → Quota → ℤ → Action W (Unit {0})
check_quota quota size = do
  let available = sub quota.disk_gigabytes_limit quota.disk_gigabytes_usage
  raise_if (ltb_ℤ available size) (
      status out_of_range "Requested volume would exceed volume space quota by %d GB"
        (int_arg (sub size available) end))
  raise_if (leb_ℤ quota.disk_volume_count_limit quota.disk_volume_count_usage) (
      status out_of_range "Requested volume would exceed volume count limit quota of %d"
        (int_arg quota.disk_volume_count_limit end))

abbrev pub volume_config : {W : Type 0} → Driver W → String → ℤ → VolumeConfig
volume_config d name size = record {
  name = name;
  region = d.region;
  namespace = d.namespace;
  cluster_id = d.cluster_id;
  size_gigabytes = size;
  volume_type = d.cluster_volume_type;
}

module _ {W : Type 0} (host : Host W) (d : Driver W) where
  unfoldable pub resolve_existing_volume : Volume → ℤ → Action W CsiVolume
  resolve_existing_volume v size = do
    raise_if (not (eqb_ℤ v.size_gigabytes size))
        (status already_exists "Volume already exists with a differnt size" end)
    available ← wait_for_volume_status host d v "available" civo_volume_available_retries
    if available
        then pure (volume_response v.id v.size_gigabytes)
        else raise (
            status unavailable "Volume isn't available to be attached, state is currently %s"
              (text_arg v.status end))

  -- The first volume of the name decides. `none` says that there is no such volume.
  unfoldable pub resolve_first : List Volume → String → ℤ → Action W (Option CsiVolume)
  unfolding resolve_existing_volume
  resolve_first [] name size = pure none
  resolve_first (v ∷ vs) name size =
      if v.name == name
      then (do resp ← resolve_existing_volume v size; pure (some resp))
      else resolve_first vs name size

  unfoldable pub lookup_existing_by_name : String → ℤ → Action W (Option CsiVolume)
  lookup_existing_by_name name size = do
    volumes ←
        call_or (λ e. wrapped "list volumes for lookup: %w" (external e)) d.civo_client.list_volumes
    resolve_first volumes name size

  -- The branch for an error of NewVolume: a duplicate name is looked up, and whatever that does
  -- not resolve ends in the error that NewVolume gave.
  unfoldable pub resolve_duplicate : String → ℤ → ExternalError → Action W CsiVolume
  resolve_duplicate name size e =
      if e.is_duplicate_name
      then (do
        found ← attempt (lookup_existing_by_name name size)
        elim found [
          | inl (some resp) ↦ pure resp
          | inl none ↦ raise (external e)
          | inr _ ↦ raise (external e)
        ])
      else raise (external e)

  -- What follows a NewVolume that answered the id
  unfoldable pub await_created : String → ℤ → Action W CsiVolume
  await_created id size = do
    volume ← call (d.civo_client.get_volume id)
    available ← wait_for_volume_status host d volume "available" civo_volume_available_retries
    if available
        then pure (volume_response volume.id size)
        else raise (
            status unavailable "Civo Volume %q is not \"available\", state currently is %q"
              (text_arg volume.id (text_arg volume.status end)))

  -- The call of NewVolume and what follows it
  unfoldable pub submit : String → ℤ → Action W CsiVolume
  submit name size = do
    result ← try (d.civo_client.new_volume (volume_config d name size))
    elim result [ reply id ↦ await_created id size | failed e ↦ resolve_duplicate name size e ]

  unfoldable pub create_new : String → ℤ → Action W CsiVolume
  unfolding check_quota
  create_new name size = do
    quota ← call d.civo_client.get_quota
    check_quota quota size
    submit name size

  unfoldable pub create_volume_unsynced : CreateVolumeRequest → ℤ → Action W CsiVolume
  create_volume_unsynced req size = do
    found ← lookup_existing_by_name req.name size
    elim found [ some resp ↦ pure resp | none ↦ create_new req.name size ]

  unfoldable pub create_volume : CreateVolumeRequest → Action W CsiVolume
  unfolding check_capabilities get_vol_size_in_bytes desired_gigabytes
  create_volume req = do
    raise_if (req.name == "") (invalid "CreateVolume Name must be provided")
    raise_if (no_capabilities req.volume_capabilities)
        (invalid "CreateVolume Volume capabilities must be provided")
    check_capabilities (capabilities req.volume_capabilities)
    let size = desired_size req
    (v, shared) ← d.volume_create_group.do_call req.name (create_volume_unsynced req size)
    pure v
