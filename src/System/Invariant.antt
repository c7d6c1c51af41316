-- ===== src/System/Invariant.antt =====
-- The tables over every sequence of events.
use csi_sharedhostpath.Base.{List, [], ◌∷◌, ◌≡◌, sym, subst, Text}
use csi_sharedhostpath.Host.Db.Laws.{DbLaws, Tables}
use csi_sharedhostpath.Host.Rows.{NodePublishVolumeInfo}
use csi_sharedhostpath.Host.World.{World, Host}
use csi_sharedhostpath.Node.{Devices}
use csi_sharedhostpath.Volumes.Paths.{VolumeHelper}
use csi_sharedhostpath.System.{Event, serve_all}
use csi_sharedhostpath.System.Valid.{
  IsValid, add_volume-IsValid, without_volume-IsValid, with_capacity-IsValid,
  add_controller_info-IsValid, without_info-IsValid, put_node-IsValid,
}
use csi_sharedhostpath.System.Steps.{
  AllSmall, Step, stays, creates, deletes, expands, publishes, unpublishes, node_publishes,
  node_unpublishes, sees, Steps, done, next,
}
use csi_sharedhostpath.System.Refinement.{AnswersNames, serve_all-Steps}

module _ (vh : VolumeHelper) (t : Tables) (valid : IsValid vh t) where
  node_infos-IsValid :
      (infos : List NodePublishVolumeInfo) → IsValid vh (record t { node_infos = infos })
  node_infos-IsValid infos = record {
    ids = valid.ids;
    names = valid.names;
    placed = valid.placed;
    sized = valid.sized;
    published = valid.published;
    nodes = valid.nodes;
  }

  moved-IsValid : (u v : Tables) → v ≡ u → IsValid vh u → IsValid vh v
  moved-IsValid u v same there = subst (IsValid vh) (sym same) there

  Step-IsValid : {F : Type 0} (event : Event F) (u : Tables) → Step vh event t u → IsValid vh u
  Step-IsValid event u (stays same) = moved-IsValid _ u same valid
  Step-IsValid event u (creates req v is new_id named new_name here size grown) =
      moved-IsValid _ u grown (add_volume-IsValid vh t valid v new_id (rw named new_name) here size)
  Step-IsValid event u (deletes volid is less) =
      moved-IsValid _ u less (without_volume-IsValid vh t valid volid)
  Step-IsValid event u (expands req v c is there size larger grown) =
      moved-IsValid _ u grown (with_capacity-IsValid vh t valid v c size)
  Step-IsValid event u (publishes req is absent grown) =
      moved-IsValid _ u grown (add_controller_info-IsValid vh t valid req absent)
  Step-IsValid event u (unpublishes req is less) =
      moved-IsValid _ u less (without_info-IsValid vh t valid req)
  Step-IsValid event u (node_publishes node req raw is there grown) =
      moved-IsValid _ u grown (node_infos-IsValid _)
  Step-IsValid event u (node_unpublishes node req is less) =
      moved-IsValid _ u less (node_infos-IsValid _)
  Step-IsValid event u (sees i is put) = moved-IsValid _ u put (put_node-IsValid vh t valid i)

Steps-IsValid :
    {F : Type 0} (vh : VolumeHelper) (events : List (Event F)) (t u : Tables)
    → Steps vh events t u
    → IsValid vh t
    → IsValid vh u
Steps-IsValid vh [] t u done valid = valid
Steps-IsValid vh (event ∷ events) t u (next {u = v} step steps) valid =
    Steps-IsValid vh events v u steps (Step-IsValid vh t valid event v step)

module _ {D F : Type 0} (host : Host D F) (laws : DbLaws host.db) (devices : Devices F)
    (vh : VolumeHelper) (answering : AnswersNames host laws devices vh) (tp fp : Text) where
  open laws use {tables}

  -- The tables stay in order over every sequence of events: requests to the controller and to
  -- node servers, ticks of the nodes' clocks, jobs, and changes of the operating system from
  -- elsewhere. In order means: no two volumes have one identifier or one name; every volume lies
  -- where the layout puts its identifier, and has a whole number of mebibytes, at least a
  -- gibibyte and below a tebibyte; no volume is published twice to one node; and every node has
  -- one row. The queries for a name are answered, and requests for a size ask for at most 2^63 -
  -- 2^20 bytes.
  pub serve_all-IsValid :
      (events : List (Event F)) (w : World D F)
      → AllSmall events
      → IsValid vh (tables w.db)
      → IsValid vh (tables (serve_all host devices vh tp fp events w).db)
  serve_all-IsValid events w small valid =
      Steps-IsValid vh events (tables w.db) _
        (serve_all-Steps host laws devices vh answering tp fp events w small) valid
