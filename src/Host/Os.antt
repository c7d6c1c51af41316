-- ===== src/Host/Os.antt =====
-- The operating system of the node, as the program calls it through Go's `os`, `path/filepath`,
-- `os/exec`, `golang.org/x/sys/unix`, `time`, `k8s.io/utils/mount` and `github.com/google/uuid`.
use csi_sharedhostpath.Base.{ℕ, Bool, Option, List, Text}
use csi_sharedhostpath.Base.Int.{ℤ}
use csi_sharedhostpath.Base.Run.{Result}
use csi_sharedhostpath.Host.Db.{Err, Rows}

pub record FileInfo : Type 0 where
  pub size : ℤ
  pub is_dir : Bool
  pub is_symlink : Bool
  pub is_device : Bool
  pub name : Text

-- `unix.Statfs_t`; the numbers of blocks are unsigned.
pub record Statfs : Type 0 where
  pub bavail : ℕ
  pub blocks : ℕ
  pub bfree : ℕ
  pub bsize : ℤ
  pub ffree : ℕ
  pub files : ℕ

pub record Os (F : Type 0) : Type 0 where
  pub stat : Text → F → Result Err FileInfo × F
  pub lstat : Text → F → Result Err FileInfo × F
  pub mkdir_all : Text → F → Option Err × F
  pub symlink : Text → Text → F → Option Err × F
  pub remove : Text → F → Option Err × F
  pub remove_all : Text → F → Option Err × F
  pub chmod : Text → F → Option Err × F
  -- `os.OpenFile` with `O_CREATE`, and the `Close` of the file that it opens.
  pub open_file : Text → F → Option Err × F
  pub close_file : Text → F → Option Err × F
  pub glob : Text → F → Rows Text × F
  pub read_dir : Text → F → Result Err (List FileInfo) × F
  pub statfs : Text → F → Result Err Statfs × F
  -- A command with its arguments: the combined output, and the error of the run.
  pub command : List Text → F → (Text × Option Err) × F
  -- `mount.IsNotMountPoint`, and a mounter's methods.
  pub is_not_mount_point : Text → F → Result Err Bool × F
  pub mount : Text → Text → Text → List Text → F → Option Err × F
  pub unmount : Text → F → Option Err × F
  pub format_and_mount : Text → Text → Text → List Text → F → Option Err × F
  pub get_disk_format : Text → F → Result Err Text × F
  -- `time.Now`, in nanoseconds, and `uuid.NewRandom` as text.
  pub now : F → ℤ × F
  pub new_random : F → Result Err Text × F
