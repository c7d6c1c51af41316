-- ===== src/Controller/Expansion.antt =====
-- `ControllerExpandVolume`.
pub mod Growth
use csi_sharedhostpath.Base.{ℕ, Bool, true, false, not, Option, none, some, Text}
use csi_sharedhostpath.Base.Int.{ℤ, leb_ℤ}
use csi_sharedhostpath.Base.Run.{
  Result, ok, err, Run, ◌>>=◌, ◌>>◌, return, return_if, act, try, check, give, need, call,
}
use csi_sharedhostpath.Base.Strings.{is_empty}
use csi_sharedhostpath.Capacity.{fix_capacity, max_storage_capacity}
use csi_sharedhostpath.Controller.Requests.{
  Code, invalid_argument, not_found, out_of_range, internal, ExpandRequest, ExpandResponse,
}
use csi_sharedhostpath.Host.World.{World, Host}
use csi_sharedhostpath.Volumes.Store.{get_volume, update_volume_capacity}

module _ {D F : Type 0} (host : Host D F) where
  unfoldable pub controller_expand_volume :
      ExpandRequest → World D F → Result Code ExpandResponse × World D F
  unfolding fix_capacity
  controller_expand_volume req = call (do
    return_if (is_empty req.volume_id) (err invalid_argument)
    required ← need req.capacity_range (err invalid_argument)
    let new_capacity = fix_capacity required
    return_if (leb_ℤ max_storage_capacity new_capacity) (err out_of_range)
    vol ← try (get_volume host req.volume_id) (give (λ e. err not_found))
    return_if (leb_ℤ new_capacity vol.capacity)
        (ok (record { capacity_bytes = vol.capacity; node_expansion_required = false }))
    check (update_volume_capacity host vol new_capacity) (give (λ e. err internal))
    return (ok (record { capacity_bytes = new_capacity; node_expansion_required = vol.is_block })))
