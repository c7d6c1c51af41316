-- ===== src/Node/Working.antt =====
-- A node where nothing fails.
use csi_sharedhostpath.Base.{Bool, none, List, ◌≡◌, ◌⊎◌, Text}
use csi_sharedhostpath.Base.Run.{ok, err}
use csi_sharedhostpath.Host.Db.{not_exist}
use csi_sharedhostpath.Host.Os.{FileInfo}
use csi_sharedhostpath.Host.Rows.{NodePublishVolumeInfo}
use csi_sharedhostpath.Host.World.{Host}
use csi_sharedhostpath.Node.{Devices}

-- Each statement and each call of the operating system and of the handling of devices that the two
-- requests make succeeds; whether a path is a mount point is answered, or the path is not there.
pub record NodeWorks {D F : Type 0} (host : Host D F) (devices : Devices F) : Type 0 where
  pub adds : (i : NodePublishVolumeInfo) (d : D) → (host.db.create_node_info i d).0 ≡ none
  pub deletes :
      (volid node path : Text) (d : D) → (host.db.delete_node_infos volid node path d).0 ≡ none
  pub attaches :
      (path : Text) (s : F) → (device : Text) × ((devices.attach_file_device path s).0 ≡ ok device)
  pub detaches : (path : Text) (s : F) → (devices.detach_file_device path s).0 ≡ none
  pub looks :
      (path : Text) (s : F)
      → ((info : FileInfo) × ((host.os.lstat path s).0 ≡ ok info))
        ⊎ ((text : Text) × ((host.os.lstat path s).0 ≡ err (not_exist text)))
  pub tests :
      (path : Text) (s : F)
      → ((b : Bool) × ((host.os.is_not_mount_point path s).0 ≡ ok b))
        ⊎ ((text : Text) × ((host.os.is_not_mount_point path s).0 ≡ err (not_exist text)))
  pub opens : (path : Text) (s : F) → (host.os.open_file path s).0 ≡ none
  pub closes : (path : Text) (s : F) → (host.os.close_file path s).0 ≡ none
  pub makes : (path : Text) (s : F) → (host.os.mkdir_all path s).0 ≡ none
  pub mounts :
      (source target fstype : Text) (options : List Text) (s : F)
      → (host.os.mount source target fstype options s).0 ≡ none
  pub formats :
      (device target fstype : Text) (options : List Text) (s : F)
      → (host.os.format_and_mount device target fstype options s).0 ≡ none
  pub changes_mode : (path : Text) (s : F) → (host.os.chmod path s).0 ≡ none
  pub unmounts : (path : Text) (s : F) → (host.os.unmount path s).0 ≡ none
  pub removes : (path : Text) (s : F) → (host.os.remove_all path s).0 ≡ none
