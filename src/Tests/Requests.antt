-- ===== src/Tests/Requests.antt =====
-- Runs of the controller.
use csi_sharedhostpath.Base.{true, none, [], ◌∷◌, ◌≡◌, refl}
use csi_sharedhostpath.Base.Int.{pos, ℤ-discrete}
use csi_sharedhostpath.Base.Run.{Result, ok, err}
use csi_sharedhostpath.Base.Strings.{codes}
use csi_sharedhostpath.Capacity.{fix_capacity}
use csi_sharedhostpath.Controller.Requests.{
  Code, internal, CreateVolumeRequest, CreateVolumeResponse, ExpandResponse, invalid_argument,
}
use csi_sharedhostpath.Base.{Text-discrete}
use csi_sharedhostpath.Base.Dict.{lookup}
use csi_sharedhostpath.Controller.Provisioning.{
  see_capabilities, some_other_mode, Checked, check_request, created_response, create_volume,
  delete_volume,
}
use csi_sharedhostpath.Controller.Provisioning.Creation.{
  Creates, create_volume-Creates, create_volume_after_failed_query,
}
use csi_sharedhostpath.Controller.Provisioning.Retry.{create_volume_retry}
use csi_sharedhostpath.Controller.Provisioning.Deletion.{delete_volume_retry}
use csi_sharedhostpath.Controller.Publishing.{
  controller_publish_volume, controller_unpublish_volume,
}
use csi_sharedhostpath.Controller.Publishing.Table.{Publishes, controller_publish_volume-Publishes}
use csi_sharedhostpath.Controller.Publishing.Unpublish.{
  Unpublishes, controller_unpublish_volume-Unpublishes, out_of,
}
use csi_sharedhostpath.Controller.Expansion.{controller_expand_volume}
use csi_sharedhostpath.Controller.Expansion.Growth.{Expands, controller_expand_volume-Expands}
use csi_sharedhostpath.Host.Rows.{Volume}
use csi_sharedhostpath.Host.Db.{record_not_found}
use csi_sharedhostpath.Volumes.Infos.{min_last_seen}
use csi_sharedhostpath.Host.World.{World}
use csi_sharedhostpath.Volumes.Store.Create.{add_volume}
use csi_sharedhostpath.Tests.Memory.{Memory, Disk, memory_laws, host, broken}
use csi_sharedhostpath.Tests.Scene.{
  helper, first_id, first_volume, tables_of, empty_world, one_world, stuck_world, failing_world,
  type_parameter, disk_request, disk_checked, publish_request, expand_request,
}

request_checked : check_request type_parameter disk_request ≡ ok disk_checked
unfolding check_request fix_capacity see_capabilities lookup Text-discrete ℤ-discrete
    some_other_mode
request_checked = refl

abbrev create : World Memory Disk → Result Code CreateVolumeResponse × World Memory Disk
create = create_volume host helper type_parameter disk_request

create_volume-Creates_example :
    Creates helper disk_request disk_checked
      (tables_of [])
      (create empty_world).0
      (create empty_world).1.db.stored
create_volume-Creates_example =
    create_volume-Creates host memory_laws helper disk_request disk_checked type_parameter
      request_checked empty_world

abbrev made_response : CreateVolumeResponse
made_response = record {
  volume_id = codes "abcdef01";
  capacity_bytes = pos 1_000;
  volume_context = disk_request.parameters;
  content_source = none;
  accessible_topology = [] ∷ [];
}

empty_accepts : (create empty_world).0 ≡ ok made_response
unfolding create_volume check_request see_capabilities lookup Text-discrete fix_capacity ℤ-discrete
    some_other_mode csi_sharedhostpath.Controller.Provisioning.by_name
    csi_sharedhostpath.Volumes.Store.get_volume_id_by_name
    csi_sharedhostpath.Controller.Provisioning.missing_volume
    csi_sharedhostpath.Volumes.Store.create_volume
    csi_sharedhostpath.Volumes.Files.populate_volume_if_required
    csi_sharedhostpath.Volumes.Files.resize_file created_response
empty_accepts = refl

again_accepts : (create (create empty_world).1).0 ≡ ok made_response
unfolding create_volume check_request see_capabilities lookup Text-discrete fix_capacity ℤ-discrete
    some_other_mode csi_sharedhostpath.Controller.Provisioning.by_name
    csi_sharedhostpath.Volumes.Store.get_volume_id_by_name
    csi_sharedhostpath.Controller.Provisioning.missing_volume
    csi_sharedhostpath.Volumes.Store.create_volume
    csi_sharedhostpath.Volumes.Files.populate_volume_if_required
    csi_sharedhostpath.Volumes.Files.resize_file
    csi_sharedhostpath.Controller.Provisioning.existing_volume
    csi_sharedhostpath.Volumes.Store.get_volume csi_sharedhostpath.Volumes.Files.link_volume
    created_response csi_sharedhostpath.Volumes.Store.new_volume
again_accepts = refl

create_volume_retry_example :
    (made_response.volume_id ≡ made_response.volume_id)
    × ((create (create empty_world).1).1.db.stored ≡ (create empty_world).1.db.stored)
unfolding create_volume check_request see_capabilities lookup Text-discrete fix_capacity ℤ-discrete
    some_other_mode csi_sharedhostpath.Controller.Provisioning.by_name
    csi_sharedhostpath.Volumes.Store.get_volume_id_by_name
    csi_sharedhostpath.Controller.Provisioning.missing_volume
    csi_sharedhostpath.Volumes.Store.create_volume
    csi_sharedhostpath.Volumes.Files.populate_volume_if_required
    csi_sharedhostpath.Volumes.Files.resize_file
create_volume_retry_example =
    create_volume_retry host memory_laws helper disk_request disk_checked type_parameter
      request_checked empty_world (create empty_world).1 made_response made_response tt
      empty_accepts refl tt again_accepts

failing_accepts : (create failing_world).0 ≡ ok made_response
unfolding create_volume check_request see_capabilities lookup Text-discrete fix_capacity ℤ-discrete
    some_other_mode csi_sharedhostpath.Controller.Provisioning.by_name
    csi_sharedhostpath.Volumes.Store.get_volume_id_by_name
    csi_sharedhostpath.Controller.Provisioning.missing_volume
    csi_sharedhostpath.Volumes.Store.create_volume
    csi_sharedhostpath.Volumes.Files.populate_volume_if_required
    csi_sharedhostpath.Volumes.Files.resize_file created_response
failing_accepts = refl

create_volume_after_failed_query_example :
    (v : Volume) × (v.vol_name ≡ codes "first")
    × ((create failing_world).1.db.stored ≡ add_volume v (tables_of (first_volume ∷ [])))
create_volume_after_failed_query_example =
    create_volume_after_failed_query host memory_laws helper disk_request disk_checked
      type_parameter request_checked failing_world (codes "connection lost") made_response refl
      failing_accepts

abbrev nameless : CreateVolumeRequest
nameless = record disk_request { name = [] }

abbrev after_delete : World Memory Disk
after_delete = (delete_volume host helper first_id stuck_world).1

query_again : (host.db.first_volume_by_id first_id after_delete.db).0 ≡ err record_not_found
unfolding delete_volume csi_sharedhostpath.Controller.Provisioning.delete_found
    csi_sharedhostpath.Volumes.Store.get_volume Text-discrete
    csi_sharedhostpath.Controller.Provisioning.remove_volume
    csi_sharedhostpath.Volumes.Store.delete_volume
query_again = refl

delete_volume_retry_example :
    ((delete_volume host helper first_id stuck_world).0 ≡ err internal)
    × ((delete_volume host helper first_id after_delete).0 ≡ ok tt)
    × ((delete_volume host helper first_id after_delete).1.os ≡ after_delete.os)
unfolding Text-discrete
delete_volume_retry_example =
    delete_volume_retry host memory_laws helper first_id refl stuck_world after_delete first_volume
      broken refl refl refl refl refl refl (rw query_again tt)

publish_accepts : (controller_publish_volume host publish_request one_world).0 ≡ ok tt
unfolding controller_publish_volume csi_sharedhostpath.Volumes.Store.get_volume Text-discrete
    csi_sharedhostpath.Volumes.Infos.get_node_info
    csi_sharedhostpath.Controller.Publishing.publish_found
    csi_sharedhostpath.Volumes.Infos.get_controller_publish_volume_info
    csi_sharedhostpath.Volumes.Infos.create_controller_publish_volume_info
publish_accepts = refl

abbrev published : World Memory Disk
published = (controller_publish_volume host publish_request one_world).1

controller_publish_volume-Publishes_example :
    Publishes publish_request
      (tables_of (first_volume ∷ []))
      (controller_publish_volume host publish_request one_world).0
      published.db.stored
controller_publish_volume-Publishes_example =
    controller_publish_volume-Publishes host memory_laws publish_request one_world

controller_unpublish_volume-Unpublishes_example :
    Unpublishes
      (out_of publish_request)
      published.db.stored
      (controller_unpublish_volume host (out_of publish_request) published).0
      (controller_unpublish_volume host (out_of publish_request) published).1.db.stored
controller_unpublish_volume-Unpublishes_example =
    controller_unpublish_volume-Unpublishes host memory_laws (out_of publish_request) published

abbrev grown : ExpandResponse
grown = record { capacity_bytes = pos 2_000_683_008; node_expansion_required = true }

expand_accepts : (controller_expand_volume host expand_request one_world).0 ≡ ok grown
unfolding controller_expand_volume ℤ-discrete csi_sharedhostpath.Volumes.Store.get_volume
    Text-discrete csi_sharedhostpath.Volumes.Store.update_volume_capacity
    csi_sharedhostpath.Volumes.Files.resize_file
expand_accepts = refl

controller_expand_volume-Expands_example :
    Expands first_id
      (pos 2_000_000_000)
      (tables_of (first_volume ∷ []))
      grown
      (controller_expand_volume host expand_request one_world).1.db.stored
controller_expand_volume-Expands_example =
    controller_expand_volume-Expands host memory_laws expand_request (pos 2_000_000_000) one_world
      grown refl expand_accepts

nameless_refused : check_request type_parameter nameless ≡ err invalid_argument
unfolding check_request
nameless_refused = refl
