-- ===== src/Tests/Working.antt =====
-- A host where nothing fails.
use csi_sharedhostpath.Base.{
  true, false, none, some, Option, [], ◌∷◌, ◌≡◌, ◌≢◌, ◌↔◌, ◌⊎◌, inl, inr, refl, Text, Text-discrete,
  Bool, Bool-cases, arith,
}
use csi_sharedhostpath.Base.Int.{pos}
use csi_sharedhostpath.Base.Run.{Result, ok, err}
use csi_sharedhostpath.Base.Strings.{codes}
use csi_sharedhostpath.Controller.Provisioning.{delete_volume, check_request}
use csi_sharedhostpath.Controller.Provisioning.Accepting.{delete_volume_works}
use csi_sharedhostpath.Controller.Publishing.{controller_publish_volume}
use csi_sharedhostpath.Controller.Publishing.Accepting.{
  IsPublishable, controller_publish_volume_iff,
}
use csi_sharedhostpath.Controller.Requests.{
  single_node_writer, block, Code, VolumeCapability, CreateVolumeResponse,
}
use csi_sharedhostpath.Host.Db.{not_exist}
use csi_sharedhostpath.Host.Db.Laws.{first, has_id, has_name, is_controller_info, seen_since}
use csi_sharedhostpath.Host.Os.{Os, FileInfo}
use csi_sharedhostpath.Host.Rows.{Volume, NodeInfo}
use csi_sharedhostpath.Host.Working.{Works}
use csi_sharedhostpath.Host.World.{World, Host}
use csi_sharedhostpath.Node.Working.{NodeWorks}
use csi_sharedhostpath.System.Lifecycle.Working.{
  IsReady, created, published, mounted, unmounted, unpublished, deleted, whole_life_works,
}
use csi_sharedhostpath.Tests.Memory.{
  Memory, Disk, disk, info, quiet_memory, quiet_laws, answer-IsAnswered, add_pending,
}
use csi_sharedhostpath.Tests.Nodes.{loops, fstype_parameter, node_request}
use csi_sharedhostpath.Tests.Scene.{
  helper, first_id, empty_world, one_world, type_parameter, disk_request, disk_checked,
  publish_request,
}

abbrev working_disk : Os Disk
working_disk = record disk {
  remove_all = λ path s. (none, record s { removed = path ∷ s.removed });
}

abbrev working_host : Host Memory Disk
working_host = record { db = quiet_memory; os = working_disk }

add_pending-new :
    (there : Option Volume) (v : Volume) (d : Memory)
    → there ≡ none
    → (add_pending there v d).0 ≡ none
add_pending-new (some u) v d absent = cc
add_pending-new none v d absent = refl

info-cases :
    (s : Disk)
    → ((i : FileInfo) × (info s ≡ ok i)) ⊎ ((text : Text) × (info s ≡ err (not_exist text)))
info-cases s = elim (Bool-cases s.present) [
  | inl here ↦ inl (
    record { size = s.size; is_dir = false; is_symlink = false; is_device = false; name = [] },
    rw here refl,
  )
  | inr gone ↦ inr (codes "no such file", rw gone refl)
]

works : Works working_host quiet_laws
works = record {
  quiet = λ d. refl;
  answers_id = λ volid d. answer-IsAnswered (first (has_id volid) d.stored.volumes);
  answers_name = λ name d. answer-IsAnswered (first (has_name name) d.stored.volumes);
  answers_node = λ node since d. answer-IsAnswered (first (seen_since node since) d.stored.nodes);
  answers_info = λ volid node d.
      answer-IsAnswered (first (is_controller_info volid node) d.stored.controller_infos);
  inserts = λ tx v d fresh. add_pending-new (first (has_id v.vol_id) d.stored.volumes) v d fresh;
  commits = λ tx d. refl;
  deletes = λ volid d. refl;
  adds_info = λ i d. refl;
  deletes_infos = λ volid node d. refl;
  makes = λ path s. refl;
  looks = λ path s. info-cases s;
  runs = λ args s. refl;
  removes = λ path s. refl;
}

node_works : NodeWorks working_host loops
node_works = record {
  adds = λ i d. refl;
  deletes = λ volid node path d. refl;
  attaches = λ path s. (codes "/dev/loop0", refl);
  detaches = λ path s. refl;
  looks = λ path s. info-cases s;
  tests = λ path s. inl (true, refl);
  opens = λ path s. refl;
  closes = λ path s. refl;
  makes = λ path s. refl;
  mounts = λ source target fstype options s. refl;
  formats = λ device target fstype options s. refl;
  changes_mode = λ path s. refl;
  unmounts = λ path s. refl;
  removes = λ path s. refl;
}

delete_volume_works_example :
    let (answer, w') = delete_volume working_host helper first_id one_world in
    (answer ≡ ok tt) × (first (has_id first_id) w'.db.stored.volumes ≡ none)
delete_volume_works_example =
    delete_volume_works working_host quiet_laws works helper first_id one_world (λ e. cc)

controller_publish_volume_iff_example :
    ((controller_publish_volume working_host publish_request one_world).0 ≡ ok tt)
    ↔ IsPublishable working_host quiet_laws works publish_request one_world
controller_publish_volume_iff_example =
    controller_publish_volume_iff working_host quiet_laws works publish_request one_world

abbrev capability : VolumeCapability
capability = record { access_type = block; access_mode = single_node_writer }

abbrev node1 : NodeInfo
node1 = record { id = codes "node1"; last_seen = pos 50_000_000_000 }

checks : check_request type_parameter disk_request ≡ ok disk_checked
unfolding check_request csi_sharedhostpath.Controller.Provisioning.see_capabilities
    csi_sharedhostpath.Base.Dict.lookup Text-discrete csi_sharedhostpath.Capacity.fix_capacity
    csi_sharedhostpath.Base.Int.ℤ-discrete
    csi_sharedhostpath.Controller.Provisioning.some_other_mode
checks = refl

abbrev volid : Text
volid = codes "abcdef01"

ready :
    IsReady working_host quiet_laws loops works node_works helper type_parameter fstype_parameter
      disk_request disk_checked volid publish_request node_request capability node1 empty_world
unfolding csi_sharedhostpath.Base.Dict.lookup Text-discrete csi_sharedhostpath.Base.Int.◌-ℤ◌
ready = record {
  checked = checks;
  names = (codes "ns", refl, codes "pv1", refl, codes "pvc1", refl);
  free = refl;
  random = refl;
  fresh = refl;
  named = λ e. cc;
  node_named = λ e. cc;
  capable = refl;
  seen = refl;
  targeted = λ e. cc;
  given = refl;
  mountable = inl (refl, refl);
  no_info = refl;
  no_mount = refl;
}

abbrev run_created : Result Code CreateVolumeResponse × World Memory Disk
run_created =
    created working_host quiet_laws loops works node_works helper type_parameter fstype_parameter
      disk_request disk_checked volid publish_request node_request capability node1 empty_world

abbrev run_published : Result Code (Unit {0}) × World Memory Disk
run_published =
    published working_host quiet_laws loops works node_works helper type_parameter fstype_parameter
      disk_request disk_checked volid publish_request node_request capability node1 empty_world

abbrev run_mounted : Result Code (Unit {0}) × World Memory Disk
run_mounted =
    mounted working_host quiet_laws loops works node_works helper type_parameter fstype_parameter
      disk_request disk_checked volid publish_request node_request capability node1 empty_world

abbrev run_unmounted : Result Code (Unit {0}) × World Memory Disk
run_unmounted =
    unmounted working_host quiet_laws loops works node_works helper type_parameter fstype_parameter
      disk_request disk_checked volid publish_request node_request capability node1 empty_world

abbrev run_unpublished : Result Code (Unit {0}) × World Memory Disk
run_unpublished =
    unpublished working_host quiet_laws loops works node_works helper type_parameter
      fstype_parameter disk_request disk_checked volid publish_request node_request capability node1
      empty_world

abbrev run_deleted : Result Code (Unit {0}) × World Memory Disk
run_deleted =
    deleted working_host quiet_laws loops works node_works helper type_parameter fstype_parameter
      disk_request disk_checked volid publish_request node_request capability node1 empty_world

whole_life_works_example :
    (answer : CreateVolumeResponse) × (run_created.0 ≡ ok answer)
    × (answer.volume_id ≡ volid)
    × (run_published.0 ≡ ok tt)
    × (run_mounted.0 ≡ ok tt)
    × (run_unmounted.0 ≡ ok tt)
    × (run_unpublished.0 ≡ ok tt)
    × (run_deleted.0 ≡ ok tt)
    × (run_deleted.1.db.stored ≡ empty_world.db.stored)
whole_life_works_example =
    whole_life_works working_host quiet_laws loops works node_works helper type_parameter
      fstype_parameter disk_request disk_checked volid publish_request node_request capability node1
      empty_world ready
