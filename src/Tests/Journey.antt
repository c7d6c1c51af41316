-- ===== src/Tests/Journey.antt =====
-- Volumes over sequences of events.
use csi_sharedhostpath.Base.{true, some, List, [], ◌∷◌, ◌≡◌, refl, arith, Text-discrete, text_eq}
use csi_sharedhostpath.Base.Strings.{codes}
use csi_sharedhostpath.Controller.Publishing.Table.{info_of, asked_info}
use csi_sharedhostpath.Host.Db.Laws.{Tables, first, has_name}
use csi_sharedhostpath.Host.World.{World}
use csi_sharedhostpath.Node.Publishing.Table.{asked_node_info}
use csi_sharedhostpath.System.{
  Event, create, delete, publish, unpublish, expand, node_unpublish, clean_up, serve_all,
}
use csi_sharedhostpath.System.Apart.{Every}
use csi_sharedhostpath.System.Lasting.{IsKept, SparesVolume, serve_all-IsKept}
use csi_sharedhostpath.System.Lasting.Publications.{SparesInfo, serve_all-info_of}
use csi_sharedhostpath.System.Refinement.{AnswersNames, serve_all-Steps}
use csi_sharedhostpath.System.Steps.{AllSmall, Steps}
use csi_sharedhostpath.System.View.{view, Moves}
use csi_sharedhostpath.System.View.Refinement.{serve_all-Moves}
use csi_sharedhostpath.Tests.Memory.{Memory, Disk, quiet_laws, quiet_host, answer-IsAnswered}
use csi_sharedhostpath.Tests.Nodes.{loops, fstype_parameter, node_request}
use csi_sharedhostpath.Tests.Scene.{
  helper, first_id, first_volume, tables_of, one_world, type_parameter, disk_request,
  publish_request, expand_request,
}

answers_names : AnswersNames quiet_host quiet_laws loops helper
answers_names name d = answer-IsAnswered (first (has_name name) d.stored.volumes)

-- The volume is published to a node, and on it.
abbrev published_world : World Memory Disk
published_world = record one_world {
  db = record one_world.db {
    stored = record (tables_of (first_volume ∷ [])) {
      controller_infos = asked_info publish_request ∷ [];
      node_infos = asked_node_info (codes "node1") node_request true ∷ [];
    };
  };
}

-- Events that concern the volume, and some that end other volumes and other publications.
abbrev events : List (Event Disk)
events =
    expand expand_request
    ∷ create disk_request
    ∷ delete (codes "abcdef09")
    ∷ unpublish (record { volume_id = first_id; node_id = codes "node2" })
    ∷ node_unpublish (codes "node1") (record { volume_id = first_id; target_path = codes "/other" })
    ∷ publish publish_request
    ∷ clean_up
    ∷ []

abbrev last : Tables
last =
    (serve_all quiet_host loops helper type_parameter fstype_parameter events
      published_world).db.stored

small : AllSmall events
small = ground arith

serve_all-Steps_example : Steps helper events published_world.db.stored last
serve_all-Steps_example =
    serve_all-Steps quiet_host quiet_laws loops helper answers_names type_parameter fstype_parameter
      events published_world small

spares_volume : Every (SparesVolume first_id) events
spares_volume = ground arith

serve_all-IsKept_example : IsKept first_id first_volume last
unfolding Text-discrete
serve_all-IsKept_example =
    serve_all-IsKept quiet_host quiet_laws loops helper answers_names type_parameter
      fstype_parameter events published_world small first_volume refl spares_volume

spares_info : Every (SparesInfo first_id (codes "node1")) events
spares_info = ground arith

serve_all-info_of_example :
    info_of first_id (codes "node1") last ≡ some (asked_info publish_request)
unfolding Text-discrete
serve_all-info_of_example =
    serve_all-info_of quiet_host quiet_laws loops helper answers_names type_parameter
      fstype_parameter events published_world small first_id (codes "node1")
      (asked_info publish_request) refl spares_info

serve_all-Moves_example : Moves events (view published_world.db.stored) (view last)
serve_all-Moves_example =
    serve_all-Moves quiet_host quiet_laws loops helper answers_names type_parameter fstype_parameter
      events published_world small
