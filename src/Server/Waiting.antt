-- ===== src/Server/Waiting.antt =====
-- No move of the server lowers the counter of the wait group.
use csi_sharedhostpath.Base.{
  ◌≤◌, false, some, Option-cases, List, [], ◌∷◌, ◌≡◌, inl, inr, arith, nat_eq,
}
use csi_sharedhostpath.Server.{
  GrpcServer, new_grpc_server, Move, start, set_server, stop, force_stop, move, move_all,
  wait_returns,
}

move_waiting : (m : Move) (s s' : GrpcServer) → move m s ≡ some s' → s.waiting ≤ s'.waiting
unfolding move
move_waiting start s s' e = ground arith
move_waiting set_server s s' e = ground arith
move_waiting stop s s' e = ground arith
move_waiting force_stop s s' e = ground arith

move_all_waiting :
    (ms : List Move) (s s' : GrpcServer) → move_all ms s ≡ some s' → s.waiting ≤ s'.waiting
unfolding move_all
move_all_waiting [] s s' e = ground arith
move_all_waiting (m ∷ ms) s s' e = elim (Option-cases (move m s)) [
  | inl stuck ↦ absurd (ground arith)
  | inr (t, moved) ↦
      let first : s.waiting ≤ t.waiting = move_waiting m s t moved in
      let rest : t.waiting ≤ s'.waiting = move_all_waiting ms t s' (ground arith) in omega arith
]

-- Once the server was started, `Wait` does not return, whatever starts, set-ups and stops follow
-- without a panic: no move lowers the counter.
pub move_all-wait_returns :
    (ms : List Move) (s : GrpcServer)
    → move_all (start ∷ ms) new_grpc_server ≡ some s
    → wait_returns s ≡ false
unfolding move_all move wait_returns
move_all-wait_returns ms s e =
    let started : 1 ≤ s.waiting =
      move_all_waiting ms (record { waiting = 1; starting = 1; server = false }) s e in
    ground arith
