-- ===== src/Server.antt =====
-- `nonBlockingGRPCServer` of internal/sharedhostpath/server.go: the set-up in `serve`, and the wait
-- group and the pointer to the gRPC server that the methods share.
pub mod Serving
pub mod Waiting
use csi_sharedhostpath.Base.{
  ℕ, zero, suc, Bool, true, false, Option, none, some, List, [], ◌∷◌, Text, ◌==◌, nat_eq,
  if◌then◌else◌,
}
use csi_sharedhostpath.Endpoint.{Endpoint, parsed, invalid, panics, parse_endpoint, listen_on}
use csi_sharedhostpath.Host.Db.{Err, is_not_exist}
use csi_sharedhostpath.Host.Os.{Os}

-- Which of the servers of identity, controller and node are not nil.
pub record Services : Type 0 where
  pub identity : Bool
  pub controller : Bool
  pub node : Bool

-- The process has ended by `klog.Fatal` or a panic, or serves on a protocol and an address.
pub data Listening : Type 0 where
  fatal : Listening
  serving : Text → Text → Services → Listening

-- An error of the removal that is not that the file is not there.
removal_fails : Option Err → Bool
removal_fails none = false
removal_fails (some e) = if is_not_exist e then false else true

module _ {F : Type 0} (os : Os F) (listen : Text → Text → F → Option Err × F) where
  abbrev listen_at : Text → Text → Services → F → Listening × F
  listen_at proto addr services s =
      let (e, s') = listen proto addr s in
      elim e [ none ↦ (serving proto addr services, s') | some failure ↦ (fatal, s') ]

  -- The old file of a socket is removed first.
  serve_on : (Text × Text) × Option Text → Services → F → Listening × F
  unfolding removal_fails
  serve_on ((proto, addr), none) services s = listen_at proto addr services s
  serve_on ((proto, addr), some old) services s =
      let (e, s') = os.remove old s in
      if removal_fails e then (fatal, s') else listen_at proto addr services s'

  -- `serve`, up to the call of `server.Serve`.
  unfoldable pub serve : Text → Services → F → Listening × F
  unfolding parse_endpoint listen_on serve_on
  serve endpoint services s = elim (parse_endpoint endpoint) [
    | parsed proto addr ↦ serve_on (listen_on proto addr) services s
    | invalid ↦ (fatal, s)
    | panics ↦ (fatal, s)
  ]

-- The counter of the wait group, the calls of `serve` that have not set the pointer yet, and
-- whether the pointer is set.
pub record GrpcServer : Type 0 where
  pub waiting : ℕ
  pub starting : ℕ
  pub server : Bool

-- `NewNonBlockingGRPCServer`
abbrev pub new_grpc_server : GrpcServer
new_grpc_server = record { waiting = 0; starting = 0; server = false }

-- `Start`, a call of `serve` that reaches `s.server = server`, `Stop` or `ForceStop`.
pub data Move : Type 0 where
  start set_server stop force_stop : Move

-- One move; none where the process panics, since the pointer is nil.
unfoldable pub move : Move → GrpcServer → Option GrpcServer
move start s = some (record s { waiting = suc s.waiting; starting = suc s.starting })
move set_server s = elim s.starting [
  | zero ↦ some s
  | suc n ↦ some (record s { starting = n; server = true })
]
move stop s = if s.server then some s else none
move force_stop s = if s.server then some s else none

unfoldable pub move_all : List Move → GrpcServer → Option GrpcServer
unfolding move
move_all [] s = some s
move_all (m ∷ ms) s = elim (move m s) [ none ↦ none | some s' ↦ move_all ms s' ]

-- Whether `Wait` returns: the counter is 0.
unfoldable pub wait_returns : GrpcServer → Bool
wait_returns s = s.waiting == 0
