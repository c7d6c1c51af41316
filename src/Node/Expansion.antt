-- ===== src/Node/Expansion.antt =====
-- `NodeExpandVolume`.
use csi_sharedhostpath.Base.{Bool, true, not, Option, none, some, Text}
use csi_sharedhostpath.Base.Run.{
  Result, ok, err, Run, next, ◌>>=◌, ◌>>◌, return, return_if, when, try, check, give, call,
}
use csi_sharedhostpath.Base.Strings.{is_empty}
use csi_sharedhostpath.Controller.Requests.{
  Code, invalid_argument, not_found, internal, VolumeCapability, wants_block,
}
use csi_sharedhostpath.Host.World.{World, Host, on_os}
use csi_sharedhostpath.Node.{Devices, NodeExpandRequest}
use csi_sharedhostpath.Node.LoopDevice.{re_read_file_size}
use csi_sharedhostpath.Volumes.Store.{get_volume}

-- No capability, or one that is not for a block device.
abbrev pub resizes_fs : Option VolumeCapability → Bool
resizes_fs none = true
resizes_fs (some cap) = not (wants_block cap)

module _ {D F : Type 0} (host : Host D F) (devices : Devices F) where
  abbrev Answer : Type 0
  Answer = Result Code (Unit {0})

  -- The file system on the device is grown where it is mounted.
  resize_mounted : Text → Text → Run (World D F) Answer (Unit {0})
  resize_mounted device path = do
    not_mount ← try (on_os (host.os.is_not_mount_point path)) (give (λ e. err internal))
    return_if not_mount (err not_found)
    resized ← try (on_os (devices.resize device path)) (give (λ e. err internal))
    λ w. (next tt, w)

  unfoldable pub node_expand_volume : NodeExpandRequest → World D F → Answer × World D F
  unfolding resize_mounted
  node_expand_volume req = call (do
    return_if (is_empty req.volume_id) (err invalid_argument)
    return_if (is_empty req.volume_path) (err invalid_argument)
    vol ← try (get_volume host req.volume_id) (give (λ e. err not_found))
    return_if (not vol.is_block) (ok tt)
    device ← try (on_os (devices.get_loop_device vol.vol_path)) (give (λ e. err internal))
    check (on_os (re_read_file_size host.os devices vol.vol_path)) (give (λ e. err internal))
    when (resizes_fs req.volume_capability) (resize_mounted device req.volume_path)
    return (ok tt))
