-- ===== src/Tests/Scene.antt =====
-- The states and the requests of the tests.
use csi_sharedhostpath.Base.{Bool, true, false, none, some, List, [], ◌∷◌, Text}
use csi_sharedhostpath.Base.Int.{pos}
use csi_sharedhostpath.Base.Strings.{codes}
use csi_sharedhostpath.Controller.Requests.{
  single_node_writer, block, CreateVolumeRequest, PublishRequest, ExpandRequest,
}
use csi_sharedhostpath.Controller.Provisioning.{Checked}
use csi_sharedhostpath.Host.Rows.{Volume}
use csi_sharedhostpath.Host.Db.Laws.{Tables}
use csi_sharedhostpath.Host.World.{World}
use csi_sharedhostpath.Volumes.Details.{pv_name_key, pvc_name_key, pvc_namespace_key}
use csi_sharedhostpath.Volumes.Paths.{VolumeHelper}
use csi_sharedhostpath.Tests.Memory.{Memory, Disk}

abbrev pub helper : VolumeHelper
helper = record { vols_path = codes "/csi/vols"; syms_path = codes "/csi/syms" }

abbrev pub first_id : Text
first_id = codes "abcdef02"

-- A volume of one gibibyte.
abbrev pub first_volume : Volume
first_volume = record {
  vol_id = first_id;
  vol_name = codes "first";
  pv_name = codes "pv1";
  pvc_name = codes "pvc1";
  ns_name = codes "ns";
  capacity = pos 1_073_741_824;
  is_block = true;
  vol_path = codes "/csi/vols/ab/cd/ef/abcdef02";
}

abbrev pub tables_of : List Volume → Tables
tables_of volumes = record {
  volumes = volumes;
  nodes = record { id = codes "node1"; last_seen = pos 50_000_000_000 } ∷ [];
  controller_infos = [];
  node_infos = [];
}

abbrev pub memory_of : List Volume → Bool → Bool → Memory
memory_of volumes query_fails delete_fails = record {
  stored = tables_of volumes;
  pending = [];
  query_fails = query_fails;
  delete_fails = delete_fails;
}

abbrev pub files : Disk
files = record { removed = []; size = pos 1_073_741_824; present = true; stuck = false }

abbrev pub no_files : Disk
no_files = record { removed = []; size = pos 0; present = false; stuck = false }

abbrev pub stuck_files : Disk
stuck_files = record { removed = []; size = pos 5; present = true; stuck = true }

abbrev pub empty_world : World Memory Disk
empty_world = record { db = memory_of [] false false; os = no_files }

abbrev pub one_world : World Memory Disk
one_world = record { db = memory_of (first_volume ∷ []) false false; os = files }

-- The file has another size than the row says, and cannot be removed.
abbrev pub stuck_world : World Memory Disk
stuck_world = record { db = memory_of (first_volume ∷ []) false false; os = stuck_files }

-- The queries for a name and for a path fail.
abbrev pub failing_world : World Memory Disk
failing_world = record { db = memory_of (first_volume ∷ []) true false; os = no_files }

-- The deletion of a row fails.
abbrev pub undeletable_world : World Memory Disk
undeletable_world = record { db = memory_of (first_volume ∷ []) false true; os = files }

abbrev pub type_parameter : Text
type_parameter = codes "csi/type"

abbrev pub disk_request : CreateVolumeRequest
disk_request = record {
  name = codes "first";
  volume_capabilities =
      some (record { access_type = block; access_mode = single_node_writer } ∷ []);
  parameters =
      (type_parameter, codes "disk")
      ∷ (pvc_namespace_key, codes "ns")
      ∷ (pv_name_key, codes "pv1")
      ∷ (pvc_name_key, codes "pvc1")
      ∷ [];
  required_bytes = pos 1_000;
  volume_content_source = none;
}

abbrev pub disk_checked : Checked
disk_checked = record { capacity = pos 1_073_741_824; is_block = true }

abbrev pub publish_request : PublishRequest
publish_request = record {
  volume_id = first_id;
  node_id = codes "node1";
  has_capability = true;
  readonly = false;
}

abbrev pub expand_request : ExpandRequest
expand_request = record { volume_id = first_id; capacity_range = some (pos 2_000_000_000) }
