-- ===== src/Host/Working.antt =====
-- A host on which nothing fails: each query is answered, each statement and each call of the
-- operating system that the volume helper makes succeeds. A statement that inserts a volume
-- succeeds where no row has its identifier.
use csi_sharedhostpath.Base.{ℕ, none, List, ◌≡◌, ◌⊎◌, Text}
use csi_sharedhostpath.Base.Int.{ℤ}
use csi_sharedhostpath.Base.Run.{ok, err}
use csi_sharedhostpath.Host.Db.{not_exist}
use csi_sharedhostpath.Host.Db.Laws.{DbLaws, IsAnswered, first, has_id}
use csi_sharedhostpath.Host.Os.{FileInfo}
use csi_sharedhostpath.Host.Rows.{Volume, ControllerPublishVolumeInfo}
use csi_sharedhostpath.Host.World.{Host}

pub record Works {D F : Type 0} (host : Host D F) (laws : DbLaws host.db) : Type 0 where
  pub quiet : (d : D) → host.db.handle_error d ≡ none
  pub answers_id : (volid : Text) (d : D) → IsAnswered (host.db.first_volume_by_id volid d).0
  pub answers_name : (name : Text) (d : D) → IsAnswered (host.db.first_volume_by_name name d).0
  pub answers_node :
      (node : Text) (since : ℤ) (d : D) → IsAnswered (host.db.first_node_since node since d).0
  pub answers_info :
      (volid node : Text) (d : D) → IsAnswered (host.db.first_controller_info volid node d).0
  pub inserts :
      (tx : ℕ) (v : Volume) (d : D)
      → first (has_id v.vol_id) (laws.tables d).volumes ≡ none
      → (host.db.tx_create_volume tx v d).0 ≡ none
  pub commits : (tx : ℕ) (d : D) → (host.db.commit tx d).0 ≡ none
  pub deletes : (volid : Text) (d : D) → (host.db.delete_volumes volid d).0 ≡ none
  pub adds_info :
      (i : ControllerPublishVolumeInfo) (d : D) → (host.db.create_controller_info i d).0 ≡ none
  pub deletes_infos :
      (volid node : Text) (d : D) → (host.db.delete_controller_infos volid node d).0 ≡ none
  pub makes : (path : Text) (s : F) → (host.os.mkdir_all path s).0 ≡ none
  pub looks :
      (path : Text) (s : F)
      → ((info : FileInfo) × ((host.os.lstat path s).0 ≡ ok info))
        ⊎ ((text : Text) × ((host.os.lstat path s).0 ≡ err (not_exist text)))
  pub runs : (args : List Text) (s : F) → (host.os.command args s).0.1 ≡ none
  pub removes : (path : Text) (s : F) → (host.os.remove_all path s).0 ≡ none
