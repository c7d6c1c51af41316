-- ===== src/System/Reads.antt =====
-- The requests that leave the tables as they are.
use csi_sharedhostpath.Base.{Option-cases, ◌≡◌, inl, inr, arith, Text}
use csi_sharedhostpath.Base.Run.{Result-cases}
use csi_sharedhostpath.Controller.Listing.{
  starting_token, max_entries, list_volumes, controller_get_volume,
}
use csi_sharedhostpath.Controller.Provisioning.{validate_volume_capabilities}
use csi_sharedhostpath.Controller.Requests.{ListRequest, ValidateRequest}
use csi_sharedhostpath.Host.Db.Laws.{DbLaws}
use csi_sharedhostpath.Host.World.{World, Host}
use csi_sharedhostpath.Node.{Devices, NodeExpandRequest}
use csi_sharedhostpath.Node.Expansion.{node_expand_volume}
use csi_sharedhostpath.Volumes.Details.{get_volume_with_detail, get_volumes_with_detail}
use csi_sharedhostpath.Volumes.Details.Tables.{
  get_volume_with_detail-tables, get_volumes_with_detail-tables, get_volume_count-tables,
}
use csi_sharedhostpath.Volumes.Paths.{VolumeHelper}
use csi_sharedhostpath.Volumes.Store.{get_volume}

module _ {D F : Type 0} (host : Host D F) (laws : DbLaws host.db) where
  open laws use {tables}

  pub validate-tables :
      (vh : VolumeHelper) (req : ValidateRequest) (w : World D F)
      → tables (validate_volume_capabilities host vh req w).1.db ≡ tables w.db
  unfolding validate_volume_capabilities get_volume
  validate-tables vh req w = ground (arith, laws.first_by_id req.volume_id w.db)

  pub list_volumes-tables :
      (tp : Text) (req : ListRequest) (w : World D F)
      → tables (list_volumes host tp req w).1.db ≡ tables w.db
  unfolding list_volumes
  list_volumes-tables tp req w =
      let limit = max_entries req.max_entries in
      elim (Option-cases (starting_token req.starting_token)) [
        | inl bad ↦ ground arith
        | inr (start, parsed) ↦
            let details = get_volumes_with_detail host tp start limit w in
            elim (Result-cases details.0) [
              | inr (e, broken) ↦
                  ground (arith, get_volumes_with_detail-tables host laws tp start limit w)
              | inl (vols, read) ↦ ground (
                arith,
                get_volumes_with_detail-tables host laws tp start limit w,
                get_volume_count-tables host laws tp details.1,
              )
            ]
      ]

  pub controller_get_volume-tables :
      (tp volid : Text) (w : World D F)
      → tables (controller_get_volume host tp volid w).1.db ≡ tables w.db
  unfolding controller_get_volume
  controller_get_volume-tables tp volid w =
      elim (Result-cases (get_volume_with_detail host tp volid w).0) [
        | inr (e, broken) ↦ ground (arith, get_volume_with_detail-tables host laws tp volid w)
        | inl (detail, read) ↦ ground (arith, get_volume_with_detail-tables host laws tp volid w)
      ]

  pub node_expand_volume-tables :
      (devices : Devices F) (req : NodeExpandRequest) (w : World D F)
      → tables (node_expand_volume host devices req w).1.db ≡ tables w.db
  unfolding node_expand_volume get_volume
  node_expand_volume-tables devices req w = ground (arith, laws.first_by_id req.volume_id w.db)
