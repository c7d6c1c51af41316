-- ===== src/Tests/Reads.antt =====
-- Requests about one volume.
use csi_sharedhostpath.Base.{true, false, none, some, [], ◌∷◌, ◌≡◌, ◌≢◌, ◌↔◌, refl, Text-discrete}
use csi_sharedhostpath.Base.Int.{pos}
use csi_sharedhostpath.Base.Run.{ok}
use csi_sharedhostpath.Base.Strings.{codes}
use csi_sharedhostpath.Controller.Listing.{controller_get_volume}
use csi_sharedhostpath.Controller.Listing.Single.{Describes, controller_get_volume_accepted}
use csi_sharedhostpath.Controller.Provisioning.{validate_volume_capabilities}
use csi_sharedhostpath.Controller.Provisioning.Validation.{
  Supports, confirmed, validate_volume_capabilities_iff,
}
use csi_sharedhostpath.Controller.Requests.{
  single_node_writer, multi_node_multi_writer, block, mount, Entry, ValidateRequest,
}
use csi_sharedhostpath.Host.Db.Laws.{first, has_id}
use csi_sharedhostpath.Host.Rows.{Volume}
use csi_sharedhostpath.Volumes.Details.{parameters_of}
use csi_sharedhostpath.Tests.Memory.{memory_laws, host}
use csi_sharedhostpath.Tests.Scene.{
  helper, first_id, first_volume, one_world, stuck_world, type_parameter,
}

abbrev shared_request : ValidateRequest
shared_request = record {
  volume_id = first_id;
  volume_capabilities =
      record { access_type = block; access_mode = single_node_writer }
      ∷ record { access_type = mount; access_mode = multi_node_multi_writer }
      ∷ [];
  volume_context = [];
  parameters = [];
}

validate_volume_capabilities_iff_example :
    ((validate_volume_capabilities host helper shared_request one_world).0
      ≡ ok (confirmed shared_request))
    ↔ ((first_id ≢ [])
        × (shared_request.volume_capabilities ≢ [])
        × Supports first_volume shared_request.volume_capabilities)
unfolding Text-discrete
validate_volume_capabilities_iff_example =
    validate_volume_capabilities_iff host helper shared_request first_volume one_world refl

-- The file has another size than the row says.
abbrev told : Entry
told = record {
  volume_id = first_id;
  capacity_bytes = first_volume.capacity;
  volume_context =
      (codes "csi.storage.k8s.io/pv/name", codes "pv1")
      ∷ (codes "csi.storage.k8s.io/pvc/name", codes "pvc1")
      ∷ (codes "csi.storage.k8s.io/pvc/namespace", codes "ns")
      ∷ (type_parameter, codes "disk")
      ∷ [];
  published_node_ids = [];
  abnormal = true;
  message = codes "file size dismatch";
}

stuck_told : (controller_get_volume host type_parameter first_id stuck_world).0 ≡ ok told
unfolding controller_get_volume csi_sharedhostpath.Volumes.Details.get_volume_with_detail
    Text-discrete csi_sharedhostpath.Volumes.Details.detail_of parameters_of
    csi_sharedhostpath.Base.Int.ℤ-discrete
stuck_told = refl

controller_get_volume_accepted_example :
    (vol : Volume) × (first (has_id first_id) stuck_world.db.stored.volumes ≡ some vol)
    × Describes host memory_laws type_parameter first_id stuck_world told stuck_told vol told
controller_get_volume_accepted_example =
    controller_get_volume_accepted host memory_laws type_parameter first_id stuck_world told
      stuck_told
