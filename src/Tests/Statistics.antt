-- ===== src/Tests/Statistics.antt =====
-- The statistics of a file system and of a device.
use csi_sharedhostpath.Base.{true, false, none, [], ◌∷◌, ◌≡◌, refl, arith}
use csi_sharedhostpath.Base.Int.{pos}
use csi_sharedhostpath.Base.Strings.{codes}
use csi_sharedhostpath.Host.Os.{Statfs}
use csi_sharedhostpath.Host.World.{World, Host}
use csi_sharedhostpath.Node.Statistics.{statistics_of, StatsRequest, StatsResponse, device_usage}
use csi_sharedhostpath.Node.Statistics.Usage.{statistics_of_exact}
use csi_sharedhostpath.Tests.Memory.{Memory, Disk, memory, disk}
use csi_sharedhostpath.Tests.Scene.{first_id, one_world}

abbrev statfs : Statfs
statfs = record { bavail = 50; blocks = 100; bfree = 60; bsize = pos 4_096; ffree = 7; files = 10 }

statistics_of_exact_example : statistics_of statfs ≡ record {
  available_bytes = pos 204_800;
  total_bytes = pos 409_600;
  used_bytes = pos 163_840;
  available_inodes = pos 7;
  total_inodes = pos 10;
  used_inodes = pos 3;
}
statistics_of_exact_example =
    statistics_of_exact statfs 4_096 refl (ground arith) (ground arith) (ground arith)
      (ground arith) (ground arith) (ground arith)

-- A disk on which `blockdev` prints a size.
abbrev device_host : Host Memory Disk
device_host = record {
  db = memory;
  os = record disk { command = λ args s. ((codes "1073741824\n", none), s) };
}

abbrev stats_request : StatsRequest
stats_request = record { volume_id = first_id; volume_path = codes "/pods/1/vol" }

abbrev published_world : World Memory Disk
published_world = record one_world {
  db = record one_world.db {
    stored = record one_world.db.stored {
      node_infos =
          record {
            vol_id = first_id;
            node_id = codes "node1";
            mount_path = codes "/pods/1/vol";
            raw_mount = true;
            read_only = false;
          }
          ∷ [];
    };
  };
}

abbrev stats : StatsResponse
stats = record { usage = device_usage (pos 1_073_741_824); abnormal = false; message = codes "ok" }
