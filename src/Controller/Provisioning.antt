-- ===== src/Controller/Provisioning.antt =====
-- `CreateVolume`, `DeleteVolume` and `ValidateVolumeCapabilities`. `type_parameter` is the name of
-- the parameter that the driver's name prefixes.
pub mod Guards
pub mod Creation
pub mod Deletion
pub mod Retry
pub mod Validation
pub mod Accepting
use csi_sharedhostpath.Base.{
  ℕ, Bool, true, false, not, ◌&&◌, ◌||◌, Option, none, some, List, [], ◌∷◌, Text, ◌==◌, text_eq,
  bool_eq, if◌then◌else◌,
}
use csi_sharedhostpath.Base.Dict.{Dict, lookup}
use csi_sharedhostpath.Base.Int.{ℤ, int_eq, leb_ℤ}
use csi_sharedhostpath.Base.Run.{
  Result, ok, err, Run, ◌>>=◌, ◌>>◌, return, return_if, act, try, check, give, need, call,
}
use csi_sharedhostpath.Base.Strings.{codes, is_empty}
use csi_sharedhostpath.Capacity.{fix_capacity, max_storage_capacity}
use csi_sharedhostpath.Controller.Requests.{
  Code, invalid_argument, not_found, already_exists, out_of_range, internal, VolumeCapability,
  wants_block, wants_mount, is_single_node_writer, AccessType, no_access, CreateVolumeRequest,
  CreateVolumeResponse, ValidateRequest, Confirmed,
}
use csi_sharedhostpath.Host.Db.{Err, is_record_not_found}
use csi_sharedhostpath.Host.Rows.{Volume}
use csi_sharedhostpath.Host.World.{World, Host, on_db, on_os}
use csi_sharedhostpath.Volumes.Details.{pv_name_key, pvc_name_key, pvc_namespace_key}
use csi_sharedhostpath.Volumes.Files.{populate_volume_if_required}
use csi_sharedhostpath.Volumes.Paths.{VolumeHelper}
use csi_sharedhostpath.Volumes.Store
use csi_sharedhostpath.Volumes.Store.{get_volume, get_volume_id_by_name}

abbrev pub Answer : Type 0 → Type 0
Answer A = Result Code A

-- The flags that the loop over the capabilities leaves.
pub record AccessTypes : Type 0 where
  pub access_type_block : Bool
  pub access_type_mount : Bool
  pub is_block : Bool

abbrev see_capability : AccessTypes → VolumeCapability → AccessTypes
see_capability a cap =
    let b = if wants_block cap then record a { access_type_block = true; is_block = true } else a in
    if wants_mount cap then record b { access_type_mount = true; is_block = false } else b

unfoldable pub see_capabilities : AccessTypes → List VolumeCapability → AccessTypes
see_capabilities a [] = a
see_capabilities a (cap ∷ caps) = see_capabilities (see_capability a cap) caps

abbrev pub no_access_types : AccessTypes
no_access_types = record { access_type_block = false; access_type_mount = false; is_block = false }

-- Some capability asks for another access mode than SINGLE_NODE_WRITER.
unfoldable pub some_other_mode : List VolumeCapability → Bool
some_other_mode [] = false
some_other_mode (cap ∷ caps) = not (is_single_node_writer cap) || some_other_mode caps

-- What the checks of a request leave: the capacity and the kind of the volume.
pub record Checked : Type 0 where
  pub capacity : ℤ
  pub is_block : Bool

-- The checks before the first query.
unfoldable pub check_request : Text → CreateVolumeRequest → Answer Checked
check_request type_parameter req =
    (call
      (do
        return_if (is_empty req.name) (err invalid_argument)
        caps ← need req.volume_capabilities (err invalid_argument)
        let seen = see_capabilities no_access_types caps
        return_if (seen.access_type_block && seen.access_type_mount) (err invalid_argument)
        vtype ← need (lookup type_parameter req.parameters) (err invalid_argument)
        let is_block = if vtype == codes "disk" then true else seen.is_block
        return_if (vtype == codes "folder" && seen.access_type_block) (err invalid_argument)
        let capacity = fix_capacity req.required_bytes
        return_if (leb_ℤ max_storage_capacity capacity) (err out_of_range)
        return_if (is_block && some_other_mode caps) (err invalid_argument)
        return (ok (record { capacity = capacity; is_block = is_block })))
      tt).0

abbrev pub is_nil : List VolumeCapability → Bool
is_nil [] = true
is_nil (cap ∷ caps) = false

unfoldable pub created_response : CreateVolumeRequest → Volume → CreateVolumeResponse
created_response req vol = record {
  volume_id = vol.vol_id;
  capacity_bytes = req.required_bytes;
  volume_context = req.parameters;
  content_source = req.volume_content_source;
  accessible_topology = [] ∷ [];
}

module _ {D F : Type 0} (host : Host D F) (vh : VolumeHelper) where
  abbrev W : Type 0
  W = World D F

  -- A volume of that name exists.
  unfoldable pub existing_volume :
      CreateVolumeRequest → Checked → Text → W → Answer CreateVolumeResponse × W
  existing_volume req checked volid = call (do
    vol ← try (get_volume host volid) (give (λ e. err internal))
    preq ← try (on_os (populate_volume_if_required host.os vol)) (give (λ e. err internal))
    return_if (preq || (vol.capacity == checked.capacity && vol.is_block == checked.is_block))
        (ok (created_response req vol))
    return (err already_exists))

  -- No volume of that name was found.
  unfoldable pub missing_volume :
      CreateVolumeRequest → Checked → W → Answer CreateVolumeResponse × W
  missing_volume req checked = call (do
    ns_name ← need (lookup pvc_namespace_key req.parameters) (err invalid_argument)
    pv_name ← need (lookup pv_name_key req.parameters) (err invalid_argument)
    pvc_name ← need (lookup pvc_name_key req.parameters) (err invalid_argument)
    volume_id ← try (on_os host.os.new_random) (give (λ e. err internal))
    vol ←
        try
          (Store.create_volume host vh volume_id req.name pv_name pvc_name ns_name checked.capacity
            checked.is_block)
          (give (λ e. err internal))
    return (ok (created_response req vol)))

  -- Any error of the query by name counts as absence.
  unfoldable pub by_name :
      CreateVolumeRequest → Checked → Result Err Text → W → Answer CreateVolumeResponse × W
  by_name req checked (ok volid) = existing_volume req checked volid
  by_name req checked (err e) = missing_volume req checked

  -- The part of `DeleteVolume` behind the test for a volume.
  unfoldable pub remove_volume : Text → W → Answer (Unit {0}) × W
  remove_volume volid =
      call (do check (Store.delete_volume host vh volid) (give (λ e. err internal)); return (ok tt))

  -- The pointer is nil exactly if the record was not found; another error is dropped.
  unfoldable pub delete_found : Text → Result Err Volume → W → Answer (Unit {0}) × W
  delete_found volid (ok vol) w = remove_volume volid w
  delete_found volid (err e) w = if is_record_not_found e then (ok tt, w) else remove_volume volid w

  unfoldable pub delete_volume : Text → W → Answer (Unit {0}) × W
  delete_volume volid = call (do
    return_if (is_empty volid) (err invalid_argument)
    found ← act (get_volume host volid)
    act (delete_found volid found))

  -- The loop over the capabilities of a request, for a volume.
  unfoldable pub validate_capabilities : Volume → List VolumeCapability → Answer (Unit {0})
  validate_capabilities vol [] = ok tt
  validate_capabilities vol (cap ∷ caps) =
      if not (wants_mount cap) && not (wants_block cap)
      then err invalid_argument
      else if vol.is_block && not (is_single_node_writer cap)
      then err invalid_argument
      else validate_capabilities vol caps

  unfoldable pub validate_volume_capabilities : ValidateRequest → W → Answer Confirmed × W
  unfolding validate_capabilities
  validate_volume_capabilities req = call (do
    return_if (is_empty req.volume_id) (err invalid_argument)
    return_if (is_nil req.volume_capabilities) (err invalid_argument)
    vol ← try (get_volume host req.volume_id) (give (λ e. err not_found))
    confirmed ← try (λ w. (validate_capabilities vol req.volume_capabilities, w)) (give err)
    return (
        ok (record {
          volume_context = req.volume_context;
          volume_capabilities = req.volume_capabilities;
          parameters = req.parameters;
        })))

  unfoldable pub create_volume : Text → CreateVolumeRequest → W → Answer CreateVolumeResponse × W
  create_volume type_parameter req = call (do
    checked ← try (λ w. (check_request type_parameter req, w)) (give err)
    found ← act (get_volume_id_by_name host req.name)
    act (by_name req checked found))
