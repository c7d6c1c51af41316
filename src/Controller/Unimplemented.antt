-- ===== src/Controller/Unimplemented.antt =====
-- The calls of controllerserver.go and nodeserver.go that answer `Unimplemented`.
use csi_sharedhostpath.Base.Run.{Result, err}
use csi_sharedhostpath.Controller.Requests.{Code, unimplemented}

-- The request is not read.
module _ {Req Res W : Type 0} where
  abbrev pub create_snapshot : Req → W → Result Code Res × W
  create_snapshot req w = (err unimplemented, w)

  abbrev pub delete_snapshot : Req → W → Result Code Res × W
  delete_snapshot req w = (err unimplemented, w)

  abbrev pub list_snapshots : Req → W → Result Code Res × W
  list_snapshots req w = (err unimplemented, w)

  abbrev pub get_capacity : Req → W → Result Code Res × W
  get_capacity req w = (err unimplemented, w)

  abbrev pub node_stage_volume : Req → W → Result Code Res × W
  node_stage_volume req w = (err unimplemented, w)

  abbrev pub node_unstage_volume : Req → W → Result Code Res × W
  node_unstage_volume req w = (err unimplemented, w)
