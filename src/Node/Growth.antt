-- ===== src/Node/Growth.antt =====
-- When a request to expand a volume on a node is accepted.
use csi_sharedhostpath.Base.{Bool, true, false, Option, none, ◌≡◌, ◌⊎◌, Text}
use csi_sharedhostpath.Base.Run.{Result, ok}
use csi_sharedhostpath.Host.Db.{Err}
use csi_sharedhostpath.Host.Rows.{Volume}
use csi_sharedhostpath.Host.World.{World, Host}
use csi_sharedhostpath.Node.{Devices, NodeExpandRequest}
use csi_sharedhostpath.Node.Expansion.{resizes_fs}
use csi_sharedhostpath.Node.LoopDevice.{losetup_capacity}

module _ {D F : Type 0} (host : Host D F) (devices : Devices F) (req : NodeExpandRequest)
    (w : World D F) (vol : Volume)
    (found : (host.db.first_volume_by_id req.volume_id w.db).0 ≡ ok vol) where
  -- The disk after the loop device was found, after it was found once more, after the size of its
  -- file was read again, and after the test for a mount point.
  abbrev pub located : Result Err Text × F
  located = devices.get_loop_device vol.vol_path w.os

  abbrev pub relocated : Result Err Text × F
  relocated = devices.get_loop_device vol.vol_path located.1

  abbrev pub read_again : Text → (Text × Option Err) × F
  read_again device = host.os.command (losetup_capacity device) relocated.1

  abbrev pub tested : Text → Result Err Bool × F
  tested device = host.os.is_not_mount_point req.volume_path (read_again device).1

  -- No block volume, and the disk was left alone; or a block volume whose loop device was found,
  -- and found once more, and for the device that was found then `losetup -c` has read the size of
  -- the file again, where either no file system was to grow, or the path was a mount point and the
  -- file system on the device that was found first was grown.
  abbrev pub ExpandsOnNode : F → Type 0
  ExpandsOnNode s =
      ((vol.is_block ≡ false) × (s ≡ w.os))
      ⊎ ((vol.is_block ≡ true)
          × (device : Text) × (located.0 ≡ ok device)
          × (again : Text) × (relocated.0 ≡ ok again)
          × ((read_again again).0.1 ≡ none)
          × (((resizes_fs req.volume_capability ≡ false) × (s ≡ (read_again again).1))
              ⊎ ((resizes_fs req.volume_capability ≡ true)
                  × ((tested again).0 ≡ ok false)
                  × (grown : Bool) × ((devices.resize device req.volume_path (tested again).1).0
                      ≡ ok grown)
                  × (s ≡ (devices.resize device req.volume_path (tested again).1).1))))
