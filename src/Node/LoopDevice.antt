-- ===== src/Node/LoopDevice.antt =====
-- `ReReadFileSize` of internal/volumehelpers/volume_path_handler_linux.go, which the repository has
-- added to its copy of a part of Kubernetes.
use csi_sharedhostpath.Base.{Option, none, some, List, [], ◌∷◌, ◌++◌, Text}
use csi_sharedhostpath.Base.Run.{◌>>=◌, ◌>>◌, return, try, check, give, call}
use csi_sharedhostpath.Base.Strings.{codes}
use csi_sharedhostpath.Host.Db.{Err, failed, message}
use csi_sharedhostpath.Host.Os.{Os}
use csi_sharedhostpath.Node.{Devices}

-- `losetup -c` with a device.
abbrev pub losetup_capacity : Text → List Text
losetup_capacity loop_dev = codes "losetup" ∷ codes "-c" ∷ loop_dev ∷ []

module _ {F : Type 0} (os : Os F) (devices : Devices F) where
  -- A command whose output is only logged.
  abbrev run : List Text → F → Option Err × F
  run args s = let ((out, e), s') = os.command args s in (e, s')

  -- The device's name is empty in the message where no device is found.
  unfoldable pub re_read_file_size : Text → F → Option Err × F
  re_read_file_size path = call (do
    loop_dev ←
        try (devices.get_loop_device path)
          (give (λ e. some (failed (codes "GetLoopDevice failed for : " ++ message e))))
    check (run (losetup_capacity loop_dev)) (
        give (λ e. some (
          failed (
            codes "losetup -c "
            ++ loop_dev
            ++ codes " failed for "
            ++ path
            ++ codes ": "
            ++ message e))))
    return none)
