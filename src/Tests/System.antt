-- ===== src/Tests/System.antt =====
-- Sequences of events.
use csi_sharedhostpath.Base.{none, List, [], ◌∷◌, ◌≡◌, ◌≢◌, refl, arith, Text-discrete, text_eq}
use csi_sharedhostpath.Base.Int.{pos}
use csi_sharedhostpath.Base.Run.{ok}
use csi_sharedhostpath.Base.Strings.{codes}
use csi_sharedhostpath.Controller.Provisioning.{
  create_volume, check_request, delete_volume, created_response,
}
use csi_sharedhostpath.Controller.Publishing.{
  controller_publish_volume, controller_unpublish_volume,
}
use csi_sharedhostpath.Controller.Publishing.Table.{info_of}
use csi_sharedhostpath.Controller.Publishing.Unpublish.{out_of}
use csi_sharedhostpath.Host.Db.Laws.{first, has_name, has_id}
use csi_sharedhostpath.System.{Event, create, delete, publish, expand, seen, clean_up, serve_all}
use csi_sharedhostpath.System.Invariant.{serve_all-IsValid}
use csi_sharedhostpath.System.Refinement.{AnswersNames}
use csi_sharedhostpath.System.Steps.{AllSmall}
use csi_sharedhostpath.System.Orphans.{unpublish_after_delete}
use csi_sharedhostpath.System.Valid.{IsValid}
use csi_sharedhostpath.Volumes.Paths.{volume_path}
use csi_sharedhostpath.Host.World.{World}
use csi_sharedhostpath.Tests.Memory.{
  Memory, Disk, memory_laws, quiet_laws, quiet_host, host, answer-IsAnswered,
}
use csi_sharedhostpath.Tests.Nodes.{loops, fstype_parameter}
use csi_sharedhostpath.Tests.Scene.{
  helper, first_id, first_volume, tables_of, one_world, type_parameter, disk_request,
  publish_request, expand_request,
}

abbrev events : List (Event Disk)
events =
    seen (codes "node1") (pos 60_000_000_000)
    ∷ publish publish_request
    ∷ expand expand_request
    ∷ create disk_request
    ∷ delete first_id
    ∷ clean_up
    ∷ []

answers_names : AnswersNames quiet_host quiet_laws loops helper
answers_names name d = answer-IsAnswered (first (has_name name) d.stored.volumes)

small : AllSmall events
small = ground arith

placed : first_volume.vol_path ≡ volume_path helper.vols_path first_id
unfolding volume_path Text-discrete
placed = refl

one_world-IsValid : IsValid helper (tables_of (first_volume ∷ []))
one_world-IsValid = record {
  ids = ground arith;
  names = ground arith;
  placed = (placed, tt);
  sized = ((1024, refl, ground arith, ground arith), tt);
  published = ground arith;
  nodes = ground arith;
}

serve_all-IsValid_example :
    IsValid helper
      (serve_all quiet_host loops helper type_parameter fstype_parameter events one_world).db.stored
serve_all-IsValid_example =
    serve_all-IsValid quiet_host quiet_laws loops helper answers_names type_parameter
      fstype_parameter events one_world small one_world-IsValid

published : (controller_publish_volume host publish_request one_world).0 ≡ ok tt
unfolding controller_publish_volume Text-discrete csi_sharedhostpath.Volumes.Store.get_volume
    csi_sharedhostpath.Volumes.Infos.get_node_info
    csi_sharedhostpath.Controller.Publishing.publish_found
    csi_sharedhostpath.Volumes.Infos.get_controller_publish_volume_info
    csi_sharedhostpath.Volumes.Infos.create_controller_publish_volume_info
published = refl

abbrev published_world : World Memory Disk
published_world = (controller_publish_volume host publish_request one_world).1

deleted :
    first (has_id first_id) (delete_volume host helper first_id published_world).1.db.stored.volumes
    ≡ none
unfolding controller_publish_volume delete_volume Text-discrete
    csi_sharedhostpath.Controller.Provisioning.delete_found
    csi_sharedhostpath.Volumes.Store.get_volume csi_sharedhostpath.Volumes.Infos.get_node_info
    csi_sharedhostpath.Controller.Publishing.publish_found
    csi_sharedhostpath.Volumes.Infos.get_controller_publish_volume_info
    csi_sharedhostpath.Volumes.Infos.create_controller_publish_volume_info
    csi_sharedhostpath.Controller.Provisioning.remove_volume
    csi_sharedhostpath.Volumes.Store.delete_volume
deleted = refl

unpublish_after_delete_example :
    let w2 = (delete_volume host helper first_id published_world).1 in
    let (answer, w3) = controller_unpublish_volume host (out_of publish_request) w2 in
    (answer ≢ ok tt) × (info_of first_id (codes "node1") w3.db.stored ≢ none)
unpublish_after_delete_example =
    unpublish_after_delete host memory_laws helper publish_request one_world published deleted
