-- ===== src/System/Promise.antt =====
-- What a client may rely on after a volume was created for it.
use csi_sharedhostpath.Base.{
  ℕ, ◌*◌, Option, true, false, none, some, List, [], ◌≡◌, ◌≢◌, sym, ap, ◌∙◌, subst, arith, Text,
}
use csi_sharedhostpath.Base.Int.{ℤ, pos, leb_ℤ, ◌≤ℤ◌}
use csi_sharedhostpath.Base.Run.{ok}
use csi_sharedhostpath.Capacity.{mib}
use csi_sharedhostpath.Capacity.Rounding.{roundable}
use csi_sharedhostpath.Controller.Provisioning.{
  Checked, check_request, create_volume, validate_volume_capabilities,
}
use csi_sharedhostpath.Controller.Provisioning.Creation.{IsAsked}
use csi_sharedhostpath.Controller.Provisioning.Guards.{
  any_capability, check_request_iff, check_request_capacity,
}
use csi_sharedhostpath.Controller.Provisioning.Validation.{
  wants_nothing, other_mode, confirmed, validate_volume_capabilities_iff,
}
use csi_sharedhostpath.Controller.Requests.{
  CreateVolumeRequest, CreateVolumeResponse, ValidateRequest,
}
use csi_sharedhostpath.Host.Db.Laws.{DbLaws, Answers, IsAnswered, first, has_id}
use csi_sharedhostpath.Host.Db.Matching.{first-snoc, answered_row}
use csi_sharedhostpath.Host.Rows.{Volume}
use csi_sharedhostpath.Host.World.{World, Host}
use csi_sharedhostpath.Node.{Devices}
use csi_sharedhostpath.Volumes.Paths.{VolumeHelper, volume_path}
use csi_sharedhostpath.System.{Event, serve_all}
use csi_sharedhostpath.System.Apart.{Every}
use csi_sharedhostpath.System.Creating.{create_volume_anew}
use csi_sharedhostpath.System.Lasting.{IsKept, SparesVolume, serve_all-IsKept}
use csi_sharedhostpath.System.Refinement.{AnswersNames}
use csi_sharedhostpath.System.Steps.{AllSmall}

at_least : (a size : ℤ) (n : ℕ) → a ≤ℤ pos n → leb_ℤ (pos n) size ≡ true → a ≤ℤ size
at_least a size n covers larger = ground arith

some_injective : {A : Type 0} {a b : A} → ◌≡◌ {A = Option A} (some a) (some b) → a ≡ b
some_injective same = cc

module _ {D F : Type 0} (host : Host D F) (laws : DbLaws host.db) (devices : Devices F)
    (vh : VolumeHelper) (answering : AnswersNames host laws devices vh) (tp fp : Text)
    (req : CreateVolumeRequest) (answer : CreateVolumeResponse) (events : List (Event F))
    (w : World D F) where
  open laws use {tables}

  -- The state after the creation and the events.
  abbrev later : World D F
  later = serve_all host devices vh tp fp events (create_volume host vh tp req w).1

  module _ (created : (create_volume host vh tp req w).0 ≡ ok answer)
      (fresh : first (has_id answer.volume_id) (tables w.db).volumes ≡ none)
      (small : AllSmall events) (spared : Every (SparesVolume answer.volume_id) events) where
    -- The new volume, and what is left of it.
    new_volume-IsKept :
        (c : Checked) × (check_request tp req ≡ ok c)
        × (v : Volume) × IsAsked vh req c v
        × (v.vol_id ≡ answer.volume_id)
        × IsKept answer.volume_id v (tables later.db)
    new_volume-IsKept =
        let (c, checked, v, asked, named, grown) =
          create_volume_anew host laws vh tp req answer w created fresh in
        let there : first (has_id v.vol_id) (tables (create_volume host vh tp req w).1.db).volumes
            ≡ some v =
          rw grown (
            first-snoc (has_id v.vol_id) (tables w.db).volumes v (ground arith) (rw named fresh)) in
        let kept =
          serve_all-IsKept host laws devices vh answering tp fp events
            (create_volume host vh tp req w).1 small v there
            (subst (λ n. Every (SparesVolume n) events) (sym named) spared) in
        (c, checked, v, asked, named, subst (λ n. IsKept n v (tables later.db)) named kept)

    -- If a request to create a volume is accepted and no row had the identifier of the answer,
    -- then after every sequence of events without a request to delete that volume, its row has
    -- the name of the request, lies where the layout puts the identifier, and has at least the
    -- bytes of the request as its capacity. The request asks for at most 2^63 - 2^20 bytes. The
    -- queries for a name are answered, and requests for a size ask for at most 2^63 - 2^20 bytes.
    pub serve_all-create_volume :
        req.required_bytes ≤ℤ pos roundable
        → (v : Volume) × (first (has_id answer.volume_id) (tables later.db).volumes ≡ some v)
          × (v.vol_name ≡ req.name)
          × (v.vol_path ≡ volume_path vh.vols_path answer.volume_id)
          × (req.required_bytes ≤ℤ v.capacity)
    serve_all-create_volume within =
        let (c, checked, v, (named, sized, kind, here), is_v, (size, larger, there)) =
          new_volume-IsKept in
        let (k, is_k, least, below, covers) = check_request_capacity tp req c within checked in
        (
          record v { capacity = size },
          there,
          named,
          here ∙ ap (volume_path vh.vols_path) is_v,
          at_least req.required_bytes size (k * mib) covers (rw (sized ∙ is_k) at larger),
        )

    -- A new volume can be used as it was asked for: if a request to create a volume is accepted
    -- and no row had the identifier of the answer, then after every sequence of events without a
    -- request to delete that volume, a request to validate the capabilities of the first request
    -- for the volume is confirmed. The identifier and the capabilities are not empty, each
    -- capability asks for a block device or a file system, and the query for the volume is
    -- answered. The queries for a name are answered, and requests for a size ask for at most 2^63
    -- - 2^20 bytes.
    pub validate-serve_all-create_volume :
        (check : ValidateRequest)
        → check.volume_id ≡ answer.volume_id
        → answer.volume_id ≢ []
        → req.volume_capabilities ≡ some check.volume_capabilities
        → check.volume_capabilities ≢ []
        → any_capability wants_nothing check.volume_capabilities ≡ false
        → IsAnswered (host.db.first_volume_by_id check.volume_id later.db).0
        → (validate_volume_capabilities host vh check later).0 ≡ ok (confirmed check)
    validate-serve_all-create_volume check same_id named given some_given kinds answered =
        let (c, checked, v, (v_named, sized, kind, here), is_v, (size, larger, there)) =
          new_volume-IsKept in
        let vol : Volume = record v { capacity = size } in
        let accepted = (check_request_iff tp req c).0 checked in
        let same_caps : accepted.caps ≡ check.volume_capabilities =
          some_injective (sym accepted.given ∙ given) in
        let found : (host.db.first_volume_by_id check.volume_id later.db).0 ≡ ok vol =
          answered_row _ vol
            (subst (λ o. Answers (host.db.first_volume_by_id check.volume_id later.db).0 o)
              (rw same_id there) (laws.first_by_id check.volume_id later.db).0)
            answered in
        (validate_volume_capabilities_iff host vh check vol later found).1 (
          (λ e. named (sym same_id ∙ e)),
          some_given,
          (
            kinds,
            λ b.
                subst (λ l. any_capability other_mode l ≡ false) same_caps
                  (accepted.one_writer (sym kind ∙ b)),
          ),
        )
