-- ===== src/Tests/Nodes.antt =====
-- Runs of the node server.
use csi_sharedhostpath.Base.{true, none, some, [], ◌∷◌, Text}
use csi_sharedhostpath.Base.Run.{ok}
use csi_sharedhostpath.Base.Strings.{codes}
use csi_sharedhostpath.Controller.Requests.{block, single_node_writer}
use csi_sharedhostpath.Node.{Devices, NodePublishRequest, NodeUnpublishRequest, NodeExpandRequest}
use csi_sharedhostpath.Node.Publishing.{node_publish_volume, node_unpublish_volume}
use csi_sharedhostpath.Node.Publishing.Table.{PublishesOnNode, node_publish_volume-PublishesOnNode}
use csi_sharedhostpath.Node.Publishing.Unpublish.{
  UnpublishesOnNode, node_unpublish_volume-UnpublishesOnNode,
}
use csi_sharedhostpath.Tests.Memory.{Disk, memory_laws, host}
use csi_sharedhostpath.Tests.Scene.{first_id, first_volume, tables_of, one_world, type_parameter}

abbrev pub loops : Devices Disk
loops = record {
  attach_file_device = λ path s. (ok (codes "/dev/loop0"), s);
  get_loop_device = λ path s. (ok (codes "/dev/loop0"), s);
  detach_file_device = λ path s. (none, s);
  resize = λ device path s. (ok true, s);
}

abbrev target : Text
target = codes "/pods/1/vol"

abbrev pub node_request : NodePublishRequest
node_request = record {
  volume_id = first_id;
  target_path = target;
  volume_capability = some (record { access_type = block; access_mode = single_node_writer });
  readonly = true;
  volume_context = [];
}

abbrev pub fstype_parameter : Text
fstype_parameter = codes "csi/fsType"

node_publish_volume-PublishesOnNode_example :
    let (answer, w') =
      node_publish_volume host loops type_parameter fstype_parameter
        (codes "node1")
        node_request
        one_world in
    PublishesOnNode (codes "node1") node_request (tables_of (first_volume ∷ [])) answer w'.db.stored
node_publish_volume-PublishesOnNode_example =
    node_publish_volume-PublishesOnNode host loops memory_laws type_parameter fstype_parameter
      (codes "node1") node_request one_world

abbrev node_unpublish_request : NodeUnpublishRequest
node_unpublish_request = record { volume_id = first_id; target_path = target }

node_unpublish_volume-UnpublishesOnNode_example :
    let (answer, w') =
      node_unpublish_volume host loops (codes "node1") node_unpublish_request one_world in
    UnpublishesOnNode
      (codes "node1")
      node_unpublish_request
      (tables_of (first_volume ∷ []))
      answer
      w'.db.stored
node_unpublish_volume-UnpublishesOnNode_example =
    node_unpublish_volume-UnpublishesOnNode host loops memory_laws (codes "node1")
      node_unpublish_request one_world

abbrev node_expand_request : NodeExpandRequest
node_expand_request = record {
  volume_id = first_id;
  volume_path = target;
  volume_capability = some (record { access_type = block; access_mode = single_node_writer });
}
