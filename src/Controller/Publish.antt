-- ===== src/Controller/Publish.antt =====
-- `ControllerPublishVolume`
pub mod Calls
use civo_csi.Base.{
  String, ◌==◌, Option, none, some, true, false, Bool, not, List, [], ◌∷◌, any, ◌&&◌, if◌then◌else◌,
}
use civo_csi.Action.{
  Action, Error, status, external, error_arg, text_arg, end, unavailable, internal, not_found,
  ◌>>=◌, ◌>>◌, pure, raise, raise_if, call, call_or, effect,
}
use civo_csi.Api.{Volume, VolumeAttachConfig, Instance}
use civo_csi.Csi.{VolumeCapability, PublishRequest}
use civo_csi.Host.{Host}
use civo_csi.Driver.{Driver}
use civo_csi.Controller.Create.{invalid}

abbrev pub is_nil {ℓ} : {A : Type ℓ} → Option A → Bool
is_nil none = true
is_nil (some _) = false

-- The loop over `cluster.Instances`
abbrev pub has_instance : String → List Instance → Bool
has_instance node = any (λ i. i.id == node)

module _ {W : Type 0} (d : Driver W) where
  abbrev pub attach_config : String → VolumeAttachConfig
  attach_config node = record { instance_id = node; region = d.region }

  -- The call of AttachVolume, left out if the volume is on the node in another state than
  -- "attaching".
  unfoldable pub request_attach : PublishRequest → Volume → Action W (Unit {0})
  request_attach req volume =
      if volume.instance_id == req.node_id && not (volume.status == "attaching")
      then pure tt
      else call (d.civo_client.attach_volume req.volume_id (attach_config req.node_id))

  -- The second read of the volume, and the tests on it
  unfoldable pub confirm_attached : PublishRequest → Action W (Unit {0})
  confirm_attached req = do
    volume ← call (d.civo_client.get_volume req.volume_id)
    raise_if (not (volume.status == "attached")) (
        status unavailable
          "Volume %q is not attached to the requested instance, state is currently %q"
          (text_arg volume.id (text_arg volume.status end)))
    raise_if (not (volume.instance_id == req.node_id)) (
        status unavailable
          "Volume %q is not attached to the requested instance %q, instance id is currently %q"
          (text_arg volume.id (text_arg req.node_id (text_arg volume.instance_id end))))

module _ {W : Type 0} (host : Host W) (d : Driver W) where
  unfoldable pub attach_found : PublishRequest → Volume → Action W (Unit {0})
  unfolding request_attach confirm_attached
  attach_found req volume =
      if volume.instance_id == req.node_id && volume.status == "attached" then pure tt else (do
        raise_if (not (volume.status == "available") && not (volume.instance_id == req.node_id)) (
            status unavailable "Volume %q is not available to be attached, state is currently %q"
              (text_arg volume.id (text_arg volume.status end)))
        request_attach d req volume
        effect (host.sleep 5)
        confirm_attached d req)

  unfoldable pub controller_publish_volume : PublishRequest → Action W (Unit {0})
  unfolding attach_found
  controller_publish_volume req = do
    raise_if (is_nil req.volume_capability)
        (invalid "must provide a VolumeCapability to ControllerPublishVolume")
    raise_if (req.volume_id == "") (invalid "must provide a VolumeId to ControllerPublishVolume")
    raise_if (req.node_id == "") (invalid "must provide a NodeId to ControllerPublishVolume")
    cluster ←
        call_or
          (λ e.
            status internal "unable to connect to Civo Api. error: %s" (error_arg (external e) end))
          (d.civo_client.get_kubernetes_cluster d.cluster_id)
    raise_if (not (has_instance req.node_id cluster.instances))
        (status not_found "Unable to find instance to attach volume to" end)
    volume ← call (d.civo_client.get_volume req.volume_id)
    attach_found req volume
