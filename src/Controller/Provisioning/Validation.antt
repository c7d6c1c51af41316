-- ===== src/Controller/Provisioning/Validation.antt =====
-- Which capabilities a volume is confirmed for.
use csi_sharedhostpath.Base.{
  Bool, true, false, not, ◌&&◌, List, [], ◌∷◌, ◌≡◌, ◌≢◌, ◌↔◌, refl, inl, inr, Bool-cases, arith,
}
use csi_sharedhostpath.Base.Run.{ok, Result-cases}
use csi_sharedhostpath.Base.Strings.{is_empty}
use csi_sharedhostpath.Controller.Requests.{
  VolumeCapability, wants_block, wants_mount, is_single_node_writer, ValidateRequest, Confirmed,
}
use csi_sharedhostpath.Controller.Provisioning.{
  is_nil, validate_capabilities, validate_volume_capabilities,
}
use csi_sharedhostpath.Controller.Provisioning.Guards.{any_capability}
use csi_sharedhostpath.Host.Rows.{Volume}
use csi_sharedhostpath.Host.World.{World, Host}
use csi_sharedhostpath.Volumes.Paths.{VolumeHelper}
use csi_sharedhostpath.Volumes.Store.{get_volume}

-- The capability asks for neither a block device nor a file system.
abbrev pub wants_nothing : VolumeCapability → Bool
wants_nothing cap = not (wants_mount cap) && not (wants_block cap)

abbrev pub other_mode : VolumeCapability → Bool
other_mode cap = not (is_single_node_writer cap)

-- Each capability asks for one of the two, and for a block volume only for a single writer.
abbrev pub Supports : Volume → List VolumeCapability → Type 0
Supports vol caps =
    (any_capability wants_nothing caps ≡ false)
    × (vol.is_block ≡ true → any_capability other_mode caps ≡ false)

-- The request as it is confirmed.
abbrev pub confirmed : ValidateRequest → Confirmed
confirmed req = record {
  volume_context = req.volume_context;
  volume_capabilities = req.volume_capabilities;
  parameters = req.parameters;
}

module _ {D F : Type 0} (host : Host D F) (vh : VolumeHelper) where
  validate_capabilities-Supports :
      (vol : Volume) (caps : List VolumeCapability)
      → validate_capabilities host vh vol caps ≡ ok tt
      → Supports vol caps
  unfolding validate_capabilities
  validate_capabilities-Supports vol [] h = (refl, λ b. refl)
  validate_capabilities-Supports vol (cap ∷ caps) h =
      let rest = validate_capabilities-Supports vol caps (ground arith) in
      (ground arith, λ b. ground arith)

  Supports-validate_capabilities :
      (vol : Volume) (caps : List VolumeCapability)
      → Supports vol caps
      → validate_capabilities host vh vol caps ≡ ok tt
  unfolding validate_capabilities
  Supports-validate_capabilities vol [] h = refl
  Supports-validate_capabilities vol (cap ∷ caps) (kinds, modes) = elim (Bool-cases vol.is_block) [
    | inl b ↦
        let rest = Supports-validate_capabilities vol caps (ground arith, λ b. ground arith) in
        let mode = modes b in ground arith
    | inr n ↦
        let rest = Supports-validate_capabilities vol caps (ground arith, λ b. ground arith) in
        ground arith
  ]

  module _ (req : ValidateRequest) (vol : Volume) (w : World D F)
      (found : (host.db.first_volume_by_id req.volume_id w.db).0 ≡ ok vol) where
    validate_passes :
        (validate_volume_capabilities host vh req w).0 ≡ ok (confirmed req)
        → (is_empty req.volume_id ≡ false)
          × (is_nil req.volume_capabilities ≡ false)
          × (validate_capabilities host vh vol req.volume_capabilities ≡ ok tt)
    unfolding validate_volume_capabilities get_volume
    validate_passes h =
        elim (Result-cases (validate_capabilities host vh vol req.volume_capabilities)) [
          | inl (tt, passed) ↦ (ground arith, ground arith, passed)
          | inr (code, refused) ↦ absurd (ground arith)
        ]

    passes_validate :
        is_empty req.volume_id ≡ false
        → is_nil req.volume_capabilities ≡ false
        → validate_capabilities host vh vol req.volume_capabilities ≡ ok tt
        → (validate_volume_capabilities host vh req w).0 ≡ ok (confirmed req)
    unfolding validate_volume_capabilities get_volume
    passes_validate named given passed = ground arith

    -- For a volume that the query finds, a request to validate capabilities is confirmed exactly
    -- if its identifier and its capabilities are not empty, each capability asks for a block
    -- device or a file system, and, for a block volume, each asks for a single writer on one
    -- node.
    pub validate_volume_capabilities_iff :
        ((validate_volume_capabilities host vh req w).0 ≡ ok (confirmed req)) ↔ (
          (req.volume_id ≢ [])
          × (req.volume_capabilities ≢ [])
          × Supports vol req.volume_capabilities)
    validate_volume_capabilities_iff = (
      λ h.
          let (named, given, passed) = validate_passes h in
          (
            ground arith,
            ground arith,
            validate_capabilities-Supports vol req.volume_capabilities passed,
          ),
      λ (named, given, supported).
          passes_validate (ground arith) (ground arith)
            (Supports-validate_capabilities vol req.volume_capabilities supported),
    )
