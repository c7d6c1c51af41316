-- ===== src/Controller/Requests.antt =====
-- The messages of the container storage interface, as far as the handlers read and fill them, and
-- the status codes.
use csi_sharedhostpath.Base.{Bool, true, false, Option, List, Text}
use csi_sharedhostpath.Base.Dict.{Dict}
use csi_sharedhostpath.Base.Int.{ℤ}

pub data Code : Type 0 where
  invalid_argument not_found already_exists out_of_range internal aborted : Code
  unavailable unimplemented : Code

-- The access type of a capability is one of two or absent.
pub data AccessType : Type 0 where
  block mount no_access : AccessType

pub data AccessMode : Type 0 where
  unknown single_node_writer single_node_reader_only : AccessMode
  multi_node_reader_only multi_node_single_writer multi_node_multi_writer : AccessMode

pub record VolumeCapability : Type 0 where
  pub access_type : AccessType
  pub access_mode : AccessMode

-- `cap.GetBlock() != nil`
abbrev pub wants_block : VolumeCapability → Bool
wants_block cap = elim cap.access_type [ block ↦ true | mount ↦ false | no_access ↦ false ]

-- `cap.GetMount() != nil`
abbrev pub wants_mount : VolumeCapability → Bool
wants_mount cap = elim cap.access_type [ block ↦ false | mount ↦ true | no_access ↦ false ]

-- `cap.GetAccessMode().GetMode() == csi.VolumeCapability_AccessMode_SINGLE_NODE_WRITER`
abbrev pub is_single_node_writer : VolumeCapability → Bool
is_single_node_writer cap = elim cap.access_mode [
  | unknown ↦ false
  | single_node_writer ↦ true
  | single_node_reader_only ↦ false
  | multi_node_reader_only ↦ false
  | multi_node_single_writer ↦ false
  | multi_node_multi_writer ↦ false
]

-- A slice of capabilities that may be nil, and the required bytes, 0 where no range is given. The
-- source of the content is passed through.
pub record CreateVolumeRequest : Type 0 where
  pub name : Text
  pub volume_capabilities : Option (List VolumeCapability)
  pub parameters : Dict
  pub required_bytes : ℤ
  pub volume_content_source : Option Text

pub record CreateVolumeResponse : Type 0 where
  pub volume_id : Text
  pub capacity_bytes : ℤ
  pub volume_context : Dict
  pub content_source : Option Text
  pub accessible_topology : List Dict

-- `has_capability` says whether the pointer to a capability is set.
pub record PublishRequest : Type 0 where
  pub volume_id : Text
  pub node_id : Text
  pub has_capability : Bool
  pub readonly : Bool

pub record UnpublishRequest : Type 0 where
  pub volume_id : Text
  pub node_id : Text

-- The required bytes of the range, if there is a range.
pub record ExpandRequest : Type 0 where
  pub volume_id : Text
  pub capacity_range : Option ℤ

pub record ExpandResponse : Type 0 where
  pub capacity_bytes : ℤ
  pub node_expansion_required : Bool

pub record ListRequest : Type 0 where
  pub starting_token : Text
  pub max_entries : ℤ

-- A volume with its status.
pub record Entry : Type 0 where
  pub volume_id : Text
  pub capacity_bytes : ℤ
  pub volume_context : Dict
  pub published_node_ids : List Text
  pub abnormal : Bool
  pub message : Text

pub record ListResponse : Type 0 where
  pub entries : List Entry
  pub next_token : Text

pub record ValidateRequest : Type 0 where
  pub volume_id : Text
  pub volume_capabilities : List VolumeCapability
  pub volume_context : Dict
  pub parameters : Dict

pub record Confirmed : Type 0 where
  pub volume_context : Dict
  pub volume_capabilities : List VolumeCapability
  pub parameters : Dict
