-- ===== src/Tests/Life.antt =====
-- A volume from its creation on.
use csi_sharedhostpath.Base.{
  true, false, none, some, List, [], ◌∷◌, ◌≡◌, ◌≢◌, refl, ap, ◌∙◌, arith, Text-discrete, text_eq,
}
use csi_sharedhostpath.Base.Int.{pos, ◌≤ℤ◌}
use csi_sharedhostpath.Base.Run.{ok}
use csi_sharedhostpath.Base.Strings.{codes}
use csi_sharedhostpath.Controller.Provisioning.{
  create_volume, delete_volume, validate_volume_capabilities,
}
use csi_sharedhostpath.Controller.Publishing.{
  controller_publish_volume, controller_unpublish_volume,
}
use csi_sharedhostpath.Controller.Publishing.Table.{asked_info}
use csi_sharedhostpath.Controller.Publishing.Unpublish.{out_of}
use csi_sharedhostpath.Controller.Provisioning.Validation.{confirmed}
use csi_sharedhostpath.Controller.Requests.{
  single_node_writer, block, PublishRequest, CreateVolumeResponse, ValidateRequest,
}
use csi_sharedhostpath.Host.Db.Laws.{first, has_id, has_name}
use csi_sharedhostpath.Host.Rows.{Volume, ControllerPublishVolumeInfo, NodePublishVolumeInfo}
use csi_sharedhostpath.Host.World.{World}
use csi_sharedhostpath.Node.{NodePublishRequest}
use csi_sharedhostpath.Node.Publishing.{node_publish_volume, node_unpublish_volume}
use csi_sharedhostpath.Node.Publishing.Table.{asked_node_info}
use csi_sharedhostpath.Node.Publishing.Unpublish.{back_of}
use csi_sharedhostpath.System.{Event, delete, publish, expand, clean_up, serve_all}
use csi_sharedhostpath.System.Apart.{Every}
use csi_sharedhostpath.System.Lasting.{SparesVolume}
use csi_sharedhostpath.System.Lifecycle.{whole_life-tables}
use csi_sharedhostpath.System.Promise.{serve_all-create_volume, validate-serve_all-create_volume}
use csi_sharedhostpath.System.Refinement.{AnswersNames}
use csi_sharedhostpath.System.Steps.{AllSmall}
use csi_sharedhostpath.Volumes.Paths.{volume_path}
use csi_sharedhostpath.Tests.Memory.{Memory, Disk, quiet_laws, quiet_host, answer-IsAnswered}
use csi_sharedhostpath.Tests.Nodes.{loops, fstype_parameter, node_request}
use csi_sharedhostpath.Tests.Scene.{
  helper, first_id, first_volume, tables_of, memory_of, no_files, empty_world, type_parameter,
  disk_request, publish_request, expand_request,
}

answers_names : AnswersNames quiet_host quiet_laws loops helper
answers_names name d = answer-IsAnswered (first (has_name name) d.stored.volumes)

-- The answer to the request.
abbrev made_response : CreateVolumeResponse
made_response = record {
  volume_id = codes "abcdef01";
  capacity_bytes = pos 1_000;
  volume_context = disk_request.parameters;
  content_source = none;
  accessible_topology = [] ∷ [];
}

abbrev created : World Memory Disk
created = (create_volume quiet_host helper type_parameter disk_request empty_world).1

made :
    (create_volume quiet_host helper type_parameter disk_request empty_world).0 ≡ ok made_response
unfolding create_volume csi_sharedhostpath.Controller.Provisioning.check_request
    csi_sharedhostpath.Controller.Provisioning.see_capabilities csi_sharedhostpath.Base.Dict.lookup
    Text-discrete csi_sharedhostpath.Capacity.fix_capacity csi_sharedhostpath.Base.Int.ℤ-discrete
    csi_sharedhostpath.Controller.Provisioning.some_other_mode
    csi_sharedhostpath.Controller.Provisioning.by_name
    csi_sharedhostpath.Volumes.Store.get_volume_id_by_name
    csi_sharedhostpath.Controller.Provisioning.missing_volume
    csi_sharedhostpath.Volumes.Store.create_volume
    csi_sharedhostpath.Volumes.Files.populate_volume_if_required
    csi_sharedhostpath.Volumes.Files.resize_file
    csi_sharedhostpath.Controller.Provisioning.created_response
made = refl

abbrev to_node : PublishRequest
to_node = record publish_request { volume_id = made_response.volume_id }

abbrev on_node : NodePublishRequest
on_node = record node_request { volume_id = made_response.volume_id }

abbrev w2 : World Memory Disk
w2 = (controller_publish_volume quiet_host to_node created).1

abbrev w3 : World Memory Disk
w3 =
    (node_publish_volume quiet_host loops type_parameter fstype_parameter (codes "node1") on_node
      w2).1

abbrev w4 : World Memory Disk
w4 = (node_unpublish_volume quiet_host loops (codes "node1") (back_of on_node) w3).1

abbrev w5 : World Memory Disk
w5 = (controller_unpublish_volume quiet_host (out_of to_node) w4).1

abbrev w6 : World Memory Disk
w6 = (delete_volume quiet_host helper made_response.volume_id w5).1

-- The states by their parts.
abbrev made_volume : Volume
made_volume = record first_volume {
  vol_id = made_response.volume_id;
  vol_path = codes "/csi/vols/ab/cd/ef/abcdef01";
}

abbrev state_of :
    List ControllerPublishVolumeInfo → List NodePublishVolumeInfo → Disk → World Memory Disk
state_of infos mounts files = record {
  db = record (memory_of (made_volume ∷ []) false false) {
    stored = record (tables_of (made_volume ∷ [])) {
      controller_infos = infos;
      node_infos = mounts;
    };
    pending = made_volume ∷ [];
  };
  os = files;
}

abbrev info : ControllerPublishVolumeInfo
info = asked_info to_node

abbrev mount : NodePublishVolumeInfo
mount = asked_node_info (codes "node1") on_node true

-- The target was removed.
abbrev without_target : Disk
without_target = record no_files { removed = on_node.target_path ∷ [] }

reaches : created ≡ state_of [] [] no_files
unfolding create_volume csi_sharedhostpath.Controller.Provisioning.check_request
    csi_sharedhostpath.Controller.Provisioning.see_capabilities csi_sharedhostpath.Base.Dict.lookup
    Text-discrete csi_sharedhostpath.Capacity.fix_capacity csi_sharedhostpath.Base.Int.ℤ-discrete
    csi_sharedhostpath.Controller.Provisioning.some_other_mode
    csi_sharedhostpath.Controller.Provisioning.by_name
    csi_sharedhostpath.Volumes.Store.get_volume_id_by_name
    csi_sharedhostpath.Controller.Provisioning.missing_volume
    csi_sharedhostpath.Volumes.Store.create_volume
    csi_sharedhostpath.Volumes.Files.populate_volume_if_required
    csi_sharedhostpath.Volumes.Files.resize_file csi_sharedhostpath.Volumes.Files.link_volume
reaches = refl

publishes :
    controller_publish_volume quiet_host to_node (state_of [] [] no_files)
    ≡ (ok tt, state_of (info ∷ []) [] no_files)
unfolding controller_publish_volume csi_sharedhostpath.Volumes.Store.get_volume Text-discrete
    csi_sharedhostpath.Volumes.Infos.get_node_info
    csi_sharedhostpath.Controller.Publishing.publish_found
    csi_sharedhostpath.Volumes.Infos.get_controller_publish_volume_info
    csi_sharedhostpath.Volumes.Infos.create_controller_publish_volume_info
publishes = refl

mounts :
    node_publish_volume quiet_host loops type_parameter fstype_parameter
      (codes "node1")
      on_node
      (state_of (info ∷ []) [] no_files)
    ≡ (ok tt, state_of (info ∷ []) (mount ∷ []) no_files)
unfolding node_publish_volume csi_sharedhostpath.Volumes.Store.get_volume Text-discrete
    csi_sharedhostpath.Node.Publishing.mount_volume csi_sharedhostpath.Node.Publishing.mount_raw
    csi_sharedhostpath.Node.Publishing.record_mount
    csi_sharedhostpath.Volumes.Infos.create_node_publish_volume_info
mounts = refl

unmounts :
    node_unpublish_volume quiet_host loops
      (codes "node1")
      (back_of on_node)
      (state_of (info ∷ []) (mount ∷ []) no_files)
    ≡ (ok tt, state_of (info ∷ []) [] without_target)
unfolding node_unpublish_volume csi_sharedhostpath.Volumes.Store.get_volume Text-discrete
    csi_sharedhostpath.Node.Publishing.unmount_if_mounted
    csi_sharedhostpath.Volumes.Infos.delete_node_publish_volume_info
unmounts = refl

unpublishes :
    controller_unpublish_volume quiet_host (out_of to_node) (state_of (info ∷ []) [] without_target)
    ≡ (ok tt, state_of [] [] without_target)
unfolding controller_unpublish_volume csi_sharedhostpath.Volumes.Store.get_volume Text-discrete
    csi_sharedhostpath.Controller.Publishing.unpublish_found
    csi_sharedhostpath.Volumes.Infos.get_controller_publish_volume_info
    csi_sharedhostpath.Volumes.Infos.delete_controller_publish_volume_info
unpublishes = refl

deletes :
    first
      (has_id made_response.volume_id)
      (delete_volume quiet_host helper made_response.volume_id
        (state_of [] [] without_target)).1.db.stored.volumes
    ≡ none
unfolding delete_volume csi_sharedhostpath.Controller.Provisioning.delete_found
    csi_sharedhostpath.Volumes.Store.get_volume Text-discrete
    csi_sharedhostpath.Controller.Provisioning.remove_volume
    csi_sharedhostpath.Volumes.Store.delete_volume
deletes = refl

-- A run from an equal state.
carry :
    {A B : Type 0} (f : World Memory Disk → A × B) {w v : World Memory Disk} {r : A × B}
    → w ≡ v
    → f v ≡ r
    → f w ≡ r
carry f same run = ap f same ∙ run

published :
    controller_publish_volume quiet_host to_node created ≡ (ok tt, state_of (info ∷ []) [] no_files)
published = carry (controller_publish_volume quiet_host to_node) reaches publishes

mounted :
    node_publish_volume quiet_host loops type_parameter fstype_parameter (codes "node1") on_node w2
    ≡ (ok tt, state_of (info ∷ []) (mount ∷ []) no_files)
mounted =
    carry
      (node_publish_volume quiet_host loops type_parameter fstype_parameter (codes "node1") on_node)
      (ap (λ r. r.1) published) mounts

unmounted :
    node_unpublish_volume quiet_host loops (codes "node1") (back_of on_node) w3
    ≡ (ok tt, state_of (info ∷ []) [] without_target)
unmounted =
    carry (node_unpublish_volume quiet_host loops (codes "node1") (back_of on_node))
      (ap (λ r. r.1) mounted) unmounts

unpublished :
    controller_unpublish_volume quiet_host (out_of to_node) w4
    ≡ (ok tt, state_of [] [] without_target)
unpublished =
    carry (controller_unpublish_volume quiet_host (out_of to_node)) (ap (λ r. r.1) unmounted)
      unpublishes

deleted : first (has_id made_response.volume_id) w6.db.stored.volumes ≡ none
deleted =
    ap
      (λ w.
        first (has_id made_response.volume_id)
          (delete_volume quiet_host helper made_response.volume_id w).1.db.stored.volumes)
      (ap (λ r. r.1) unpublished)
    ∙ deletes

whole_life-tables_example : w6.db.stored ≡ empty_world.db.stored
whole_life-tables_example =
    whole_life-tables quiet_host quiet_laws loops helper type_parameter fstype_parameter
      disk_request made_response to_node on_node empty_world refl refl refl made
      (ap (λ r. r.0) published) (ap (λ r. r.0) mounted) (ap (λ r. r.0) unmounted)
      (ap (λ r. r.0) unpublished) deleted

-- What follows the creation, and leaves the volume.
abbrev events : List (Event Disk)
events =
    publish to_node
    ∷ expand (record expand_request { volume_id = made_response.volume_id })
    ∷ delete first_id
    ∷ clean_up
    ∷ []

small : AllSmall events
small = ground arith

spared : Every (SparesVolume made_response.volume_id) events
spared = ground arith

abbrev later : World Memory Disk
later = serve_all quiet_host loops helper type_parameter fstype_parameter events created

serve_all-create_volume_example :
    (v : Volume) × (first (has_id made_response.volume_id) later.db.stored.volumes ≡ some v)
    × (v.vol_name ≡ disk_request.name)
    × (v.vol_path ≡ volume_path helper.vols_path made_response.volume_id)
    × (disk_request.required_bytes ≤ℤ v.capacity)
serve_all-create_volume_example =
    serve_all-create_volume quiet_host quiet_laws loops helper answers_names type_parameter
      fstype_parameter disk_request made_response events empty_world made refl small spared
      (ground arith)

abbrev check_request : ValidateRequest
check_request = record {
  volume_id = made_response.volume_id;
  volume_capabilities = record { access_type = block; access_mode = single_node_writer } ∷ [];
  volume_context = [];
  parameters = [];
}

validate-serve_all-create_volume_example :
    (validate_volume_capabilities quiet_host helper check_request later).0
    ≡ ok (confirmed check_request)
validate-serve_all-create_volume_example =
    validate-serve_all-create_volume quiet_host quiet_laws loops helper answers_names type_parameter
      fstype_parameter disk_request made_response events empty_world made refl small spared
      check_request refl (λ e. cc) refl (λ e. cc) refl
      (answer-IsAnswered (first (has_id made_response.volume_id) later.db.stored.volumes))
