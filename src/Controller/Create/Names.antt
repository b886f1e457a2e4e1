-- ===== src/Controller/Create/Names.antt =====
-- `createVolumeUnsynced` against what it promises: that one volume of the name and size exists. The
-- promise needs laws of the API, which are a parameter.
pub mod Ensures
pub mod Sequences
use civo_csi.Base.{
  String, ℕ, zero, suc, ◌≡◌, refl, ◌≢◌, ◌∙◌, ap, sym, Option, none, some, List, [], ◌∷◌, inl, inr,
  arith, Bool-cases, ◌==◌, find, any, false, if◌then◌else◌,
}
use civo_csi.Base.Int.{ℤ}
use civo_csi.Action.{Outcome, ok, err, panic, ExternalError, Reply, reply, failed, Reply-cases}
use civo_csi.Api.{Volume, VolumeConfig, Clienter}
use civo_csi.Host.{Host}
use civo_csi.Driver.{Driver}
use civo_csi.Csi.{CreateVolumeRequest, CsiVolume}
use civo_csi.Controller.Size.{capacity_of}
use civo_csi.Controller.Wait.Keeps.{wait_keeps}
use civo_csi.Controller.Wait.{poll, wait_for_volume_status}
use civo_csi.Controller.Create.{
  resolve_existing_volume, resolve_first, lookup_existing_by_name, volume_config, volume_response,
  resolve_duplicate, await_created, submit, create_new, create_volume_unsynced,
}
use civo_csi.Controller.Create.Writes.{named, lookup-none}
use civo_csi.Controller.Create.Response.{
  lookup-some, resolve_duplicate-ok, await_created-ok, submit-ok, create_volume_unsynced-ok,
  prepared,
}

-- The id and the size of the first of some volumes that has the name.
abbrev pub first_named : String → List Volume → Option (String × ℤ)
first_named n [] = none
first_named n (v ∷ vs) = if v.name == n then some (v.id, v.size_gigabytes) else first_named n vs

-- Laws of an API in which nobody else creates or deletes volumes: `held w n` is the id and the size
-- of the volume that is listed first under the name `n`.
pub record HoldsNames {W : Type 0} (host : Host W) (c : Clienter W)
    (held : W → String → Option (String × ℤ)) : Type 0 where
  pub lists :
      (w : W) (vs : List Volume)
      → (c.list_volumes w).0 ≡ reply vs
      → (n : String) → first_named n vs ≡ held w n
  pub gets : (w : W) (id : String) (v : Volume) → (c.get_volume id w).0 ≡ reply v → v.id ≡ id
  pub list_keeps : (w : W) (n : String) → held (c.list_volumes w).1 n ≡ held w n
  pub get_keeps : (w : W) (id n : String) → held (c.get_volume id w).1 n ≡ held w n
  pub quota_keeps : (w : W) (n : String) → held (c.get_quota w).1 n ≡ held w n
  pub sleep_keeps : (w : W) (s : ℕ) (n : String) → held (host.sleep s w) n ≡ held w n
  pub creates :
      (w : W) (v : VolumeConfig) (id : String)
      → (c.new_volume v w).0 ≡ reply id
      → held w v.name ≡ none
      → held (c.new_volume v w).1 v.name ≡ some (id, v.size_gigabytes)
  pub new_keeps :
      (w : W) (v : VolumeConfig) (n : String) → n ≢ v.name → held (c.new_volume v w).1 n ≡ held w n
  pub rejects :
      (w : W) (v : VolumeConfig) (x : ExternalError) (n : String)
      → (c.new_volume v w).0 ≡ failed x
      → held (c.new_volume v w).1 n ≡ held w n

pub first_named-find :
    (n : String) (vs : List Volume) (v : Volume)
    → find (named n) vs ≡ some v
    → first_named n vs ≡ some (v.id, v.size_gigabytes)
first_named-find n [] v h = cc
first_named-find n (u ∷ vs) v h = ground (arith, first_named-find n vs v)

pub first_named-none :
    (n : String) (vs : List Volume) → any (named n) vs ≡ false → first_named n vs ≡ none
first_named-none n [] h = refl
first_named-none n (u ∷ vs) h = ground (arith, first_named-none n vs)

module _ {W : Type 0} (host : Host W) (d : Driver W) (held : W → String → Option (String × ℤ))
    (laws : HoldsNames host d.civo_client held) where
  pub held-wait :
      (v : Volume) (desired : String) (k : ℕ) (w : W) (n : String)
      → held (wait_for_volume_status host d v desired k w).1 n ≡ held w n
  held-wait v desired k w n =
      wait_keeps host d (λ (x : W). held x n) (λ id x. laws.get_keeps x id n)
        (λ s x. laws.sleep_keeps x s n) v desired k w

  held-resolve_first :
      (vs : List Volume) (name : String) (size : ℤ) (w : W) (n : String)
      → held (resolve_first host d vs name size w).1 n ≡ held w n
  unfolding resolve_first resolve_existing_volume
  held-resolve_first [] name size w n = refl
  held-resolve_first (v ∷ vs) name size w n =
      ground (arith, held-wait v "available" 20 w n, held-resolve_first vs name size w n)

  pub held-lookup :
      (name : String) (size : ℤ) (w : W) (n : String)
      → held (lookup_existing_by_name host d name size w).1 n ≡ held w n
  unfolding lookup_existing_by_name
  held-lookup name size w n = elim (Reply-cases (d.civo_client.list_volumes w).0) [
    | inl (vs, e) ↦ ground (
      arith,
      laws.list_keeps w n,
      held-resolve_first vs name size (d.civo_client.list_volumes w).1 n,
    )
    | inr (x, e) ↦ ground (arith, laws.list_keeps w n)
  ]

  pub held-resolve_duplicate :
      (name : String) (size : ℤ) (x : ExternalError) (w : W) (n : String)
      → held (resolve_duplicate host d name size x w).1 n ≡ held w n
  unfolding resolve_duplicate
  held-resolve_duplicate name size x w n = ground (arith, held-lookup name size w n)

  pub held-await_created :
      (id : String) (size : ℤ) (w : W) (n : String)
      → held (await_created host d id size w).1 n ≡ held w n
  unfolding await_created
  held-await_created id size w n = elim (Reply-cases (d.civo_client.get_volume id w).0) [
    | inl (v, e) ↦ ground (
      arith,
      laws.get_keeps w id n,
      held-wait v "available" 20 (d.civo_client.get_volume id w).1 n,
    )
    | inr (x, e) ↦ ground (arith, laws.get_keeps w id n)
  ]
