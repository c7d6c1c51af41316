-- ===== src/Controller/Listing.antt =====
-- `ListVolumes` and `ControllerGetVolume`.
pub mod Pages
pub mod Client
pub mod Following
pub mod Single
use csi_sharedhostpath.Base.{
  ℕ, ◌-◌, ◌^◌, Bool, true, false, not, Option, none, some, List, [], ◌∷◌, map, Text, ◌==◌,
  if◌then◌else◌,
}
use csi_sharedhostpath.Base.Decimal.{format_int, parse_int32}
use csi_sharedhostpath.Base.Int.{ℤ, pos, negsuc, int_eq, leb_ℤ, add64}
use csi_sharedhostpath.Base.Run.{
  Result, ok, err, Run, ◌>>=◌, ◌>>◌, return, return_if, act, try, check, give, need, call,
}
use csi_sharedhostpath.Base.Strings.{is_empty}
use csi_sharedhostpath.Controller.Requests.{
  Code, invalid_argument, not_found, internal, aborted, ListRequest, ListResponse, Entry,
}
use csi_sharedhostpath.Host.World.{World, Host}
use csi_sharedhostpath.Volumes.Details.{
  VolumeDetail, get_volume_with_detail, get_volumes_with_detail, get_volume_count,
}

-- `math.MaxInt32`
abbrev pub max_int32 : ℤ
max_int32 = pos (2 ^ 31 - 1)

unfoldable pub starting_token : Text → Option ℤ
unfolding parse_int32
starting_token token = if is_empty token then some (pos 0) else parse_int32 token

-- No limit is the greatest limit.
unfoldable pub max_entries : ℤ → ℤ
max_entries n = if n == pos 0 then max_int32 else n

-- The token of the next page, -1 for none.
unfoldable pub next_starting_token : ℤ → ℤ → ℕ → ℤ
unfolding add64
next_starting_token start limit count =
    let next = add64 start limit in
    if limit == max_int32 then negsuc 0 else if leb_ℤ (pos count) next then negsuc 0 else next

unfoldable pub token_text : ℤ → Text
unfolding format_int
token_text token = if not (token == negsuc 0) then format_int token else []

abbrev pub entry_of : VolumeDetail → Entry
entry_of vol = record {
  volume_id = vol.volume_id;
  capacity_bytes = vol.capacity;
  volume_context = vol.parameters;
  published_node_ids = vol.published_node_ids;
  abnormal = vol.condition_abnormal;
  message = vol.condition_msg;
}

module _ {D F : Type 0} (host : Host D F) (type_parameter : Text) where
  unfoldable pub list_volumes : ListRequest → World D F → Result Code ListResponse × World D F
  unfolding starting_token max_entries next_starting_token token_text
  list_volumes req = call (do
    start ← need (starting_token req.starting_token) (err aborted)
    let limit = max_entries req.max_entries
    vols ← try (get_volumes_with_detail host type_parameter start limit) (give (λ e. err internal))
    vc ← try (get_volume_count host type_parameter) (give (λ e. err internal))
    return (
        ok (record {
          entries = map entry_of vols;
          next_token = token_text (next_starting_token start limit vc);
        })))

  unfoldable pub controller_get_volume : Text → World D F → Result Code Entry × World D F
  controller_get_volume volid = call (do
    return_if (is_empty volid) (err invalid_argument)
    detail ← try (get_volume_with_detail host type_parameter volid) (give (λ e. err internal))
    vol ← need detail (err not_found)
    return (ok (entry_of vol)))
