-- ===== src/Controller/Provisioning/Guards.antt =====
-- Which requests to create a volume pass the checks, and with what capacity.
use csi_sharedhostpath.Base.{
  sym, ◌-◌, Option-cases, inl, inr, ℕ, ◌*◌, ◌^◌, ◌<◌, ◌≤◌, Bool, true, false, not, ◌&&◌, ◌||◌, some,
  List, [], ◌∷◌, ◌≡◌, ◌≢◌, ◌↔◌, refl, ◌∙◌, arith, Text, ◌==◌, text_eq,
}
use csi_sharedhostpath.Base.Dict.{lookup}
use csi_sharedhostpath.Base.Int.{pos, negsuc, ◌≤ℤ◌}
use csi_sharedhostpath.Base.Run.{ok}
use csi_sharedhostpath.Base.Strings.{codes}
use csi_sharedhostpath.Capacity.{mib, gib, fix_capacity, max_storage_capacity}
use csi_sharedhostpath.Capacity.Rounding.{roundable, fix_capacity_least, fix_capacity_overflow}
use csi_sharedhostpath.Controller.Requests.{
  VolumeCapability, wants_block, wants_mount, is_single_node_writer, CreateVolumeRequest,
}
use csi_sharedhostpath.Controller.Provisioning.{
  AccessTypes, see_capability, see_capabilities, no_access_types, some_other_mode, Checked,
  check_request,
}

abbrev pub any_capability : (VolumeCapability → Bool) → List VolumeCapability → Bool
any_capability p [] = false
any_capability p (cap ∷ caps) = p cap || any_capability p caps

-- While not both kinds were seen, the volume is a block volume if the block kind was.
abbrev Kind : AccessTypes → Type 0
Kind a = (a.access_type_block && a.access_type_mount) ≡ false → a.is_block ≡ a.access_type_block

see_capability-Kind :
    (a : AccessTypes) (cap : VolumeCapability) → Kind a → Kind (see_capability a cap)
see_capability-Kind a cap h = ground arith

see_capabilities-Kind :
    (caps : List VolumeCapability) (a : AccessTypes) → Kind a → Kind (see_capabilities a caps)
unfolding see_capabilities
see_capabilities-Kind [] a h = h
see_capabilities-Kind (cap ∷ caps) a h =
    see_capabilities-Kind caps (see_capability a cap) (see_capability-Kind a cap h)

see_capabilities-any :
    (caps : List VolumeCapability) (a : AccessTypes)
    → ((see_capabilities a caps).access_type_block
        ≡ (a.access_type_block || any_capability wants_block caps))
      × ((see_capabilities a caps).access_type_mount
          ≡ (a.access_type_mount || any_capability wants_mount caps))
unfolding see_capabilities
see_capabilities-any [] a = (ground arith, ground arith)
see_capabilities-any (cap ∷ caps) a =
    ground (arith, see_capabilities-any caps (see_capability a cap))

some_other_mode-any :
    (caps : List VolumeCapability)
    → some_other_mode caps ≡ any_capability (λ c. not (is_single_node_writer c)) caps
unfolding some_other_mode
some_other_mode-any [] = refl
some_other_mode-any (cap ∷ caps) = rw (some_other_mode-any caps)

-- What a request must be for the checks to pass with this result.
pub record IsAccepted (type_parameter : Text) (req : CreateVolumeRequest) (c : Checked)
    : Type 0 where
  pub caps : List VolumeCapability
  pub vtype : Text
  pub named : req.name ≢ []
  pub given : req.volume_capabilities ≡ some caps
  pub typed : lookup type_parameter req.parameters ≡ some vtype
  pub one_kind : (any_capability wants_block caps && any_capability wants_mount caps) ≡ false
  pub not_folder : vtype ≡ codes "folder" → any_capability wants_block caps ≡ false
  pub capacity_is : c.capacity ≡ fix_capacity req.required_bytes
  pub below_max : ¬ (max_storage_capacity ≤ℤ c.capacity)
  pub block_is : c.is_block ≡ (vtype == codes "disk" || any_capability wants_block caps)
  pub one_writer :
      c.is_block ≡ true → any_capability (λ c. not (is_single_node_writer c)) caps ≡ false

module _ (tp : Text) (req : CreateVolumeRequest) (c : Checked) where
  check_request-caps :
      check_request tp req ≡ ok c
      → (caps : List VolumeCapability) × (req.volume_capabilities ≡ some caps)
  unfolding check_request
  check_request-caps h = elim (Option-cases req.volume_capabilities) [
    | inl absent ↦ absurd (ground arith)
    | inr (caps, given) ↦ (caps, given)
  ]

  check_request-vtype :
      check_request tp req ≡ ok c → (vtype : Text) × (lookup tp req.parameters ≡ some vtype)
  unfolding check_request
  check_request-vtype h = elim (Option-cases (lookup tp req.parameters)) [
    | inl absent ↦ absurd (ground arith)
    | inr (vtype, typed) ↦ (vtype, typed)
  ]

  check_request-IsAccepted : check_request tp req ≡ ok c → IsAccepted tp req c
  unfolding check_request
  check_request-IsAccepted h =
      let (caps, given) = check_request-caps h in
      let (vtype, typed) = check_request-vtype h in
      let seen = see_capabilities-any caps no_access_types in
      let kind = see_capabilities-Kind caps no_access_types (λ _. refl) in
      let modes = some_other_mode-any caps in
      record {
        caps = caps;
        vtype = vtype;
        named = ground arith;
        given = given;
        typed = typed;
        one_kind = ground arith;
        not_folder = λ folder. ground arith;
        capacity_is = ground arith;
        below_max = ground arith;
        block_is = ground arith;
        one_writer = λ b. ground arith;
      }

  IsAccepted-check_request : IsAccepted tp req c → check_request tp req ≡ ok c
  unfolding check_request
  IsAccepted-check_request a =
      let seen = see_capabilities-any a.caps no_access_types in
      let kind = see_capabilities-Kind a.caps no_access_types (λ _. refl) in
      let modes = some_other_mode-any a.caps in ground arith

  -- The checks of a request to create a volume pass with a result exactly under the conditions of
  -- `IsAccepted`: the name, the capabilities and the type parameter are there; not both access
  -- types are asked for, and a folder is not asked for as a block device; the rounded capacity is
  -- below the maximum; and a block volume, which is one of type disk or one that a capability
  -- asks for as a block device, has a single writer on one node in every capability.
  pub check_request_iff : (check_request tp req ≡ ok c) ↔ IsAccepted tp req c
  check_request_iff = (check_request-IsAccepted, IsAccepted-check_request)

  -- A request for at most 2^63 - 2^20 bytes that passes the checks gets a whole number of
  -- mebibytes, at least a gibibyte and at least the request, and below a tebibyte.
  pub check_request_capacity :
      req.required_bytes ≤ℤ pos roundable
      → check_request tp req ≡ ok c
      → (k : ℕ) × (c.capacity ≡ pos (k * mib))
        × (gib ≤ k * mib)
        × (k * mib < 2 ^ 40)
        × (req.required_bytes ≤ℤ pos (k * mib))
  check_request_capacity small h =
      let a = check_request-IsAccepted h in
      let (k, rounded, least, covers, minimal) = fix_capacity_least req.required_bytes small in
      let below = rw (a.capacity_is, rounded) at a.below_max in
      (k, a.capacity_is ∙ rounded, least, omega arith, covers)

-- The test against the maximum does not stop the largest requests: whatever request passes the
-- checks also passes with any number of bytes above 2^63 - 2^20 and below 2^63, and then the
-- capacity of its volume is -2^63.
pub check_request_overflow :
    (tp : Text) (req : CreateVolumeRequest) (c : Checked) (n : ℕ)
    → check_request tp req ≡ ok c
    → roundable < n
    → n < 2 ^ 63
    → check_request tp (record req { required_bytes = pos n })
      ≡ ok (record c { capacity = negsuc (2 ^ 63 - 1) })
check_request_overflow tp req c n h low high =
    let a = check_request-IsAccepted tp req c h in
    IsAccepted-check_request tp (record req { required_bytes = pos n })
      (record c { capacity = negsuc (2 ^ 63 - 1) })
      (record {
        caps = a.caps;
        vtype = a.vtype;
        named = a.named;
        given = a.given;
        typed = a.typed;
        one_kind = a.one_kind;
        not_folder = a.not_folder;
        capacity_is = sym (fix_capacity_overflow n low high);
        below_max = omega arith;
        block_is = a.block_is;
        one_writer = a.one_writer;
      })
