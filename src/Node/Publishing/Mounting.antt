-- ===== src/Node/Publishing/Mounting.antt =====
-- The mounts of `NodePublishVolume` by themselves.
use csi_sharedhostpath.Base.{
  Bool, true, not, ◌&&◌, Option, none, some, ◌≡◌, refl, inl, inr, arith, Text, ◌==◌, text_eq,
}
use csi_sharedhostpath.Base.Dict.{lookup}
use csi_sharedhostpath.Base.Run.{
  ok, err, Result-cases, ◌>>=◌, ◌>>◌, return, return_if, when, act, try, give, need, call,
}
use csi_sharedhostpath.Base.Strings.{codes}
use csi_sharedhostpath.Controller.Requests.{Code, invalid_argument, VolumeCapability, wants_block}
use csi_sharedhostpath.Host.Rows.{Volume}
use csi_sharedhostpath.Host.World.{World, Host}
use csi_sharedhostpath.Node.{Devices, NodePublishRequest}
use csi_sharedhostpath.Node.Publishing.{
  Answer, check_mount_point, mount_type, mount_raw, mount_file_system, mount_volume, undo_mount,
}

-- The database under the guards of a mount and the two steps behind them.
module _ {D F : Type 0} where
  guarded_mount-db :
      (o : Option Text) (first_guard second_guard : Text → Bool)
      (point : World D F → Answer Bool × World D F)
      (mounting : Text → World D F → Answer (Unit {0}) × World D F)
      → ((w : World D F) → (point w).1.db ≡ w.db)
      → ((vtype : Text) (w : World D F) → (mounting vtype w).1.db ≡ w.db)
      → (w : World D F)
      → (call
          (do
            vtype ← need o (err invalid_argument)
            return_if (first_guard vtype) (err invalid_argument)
            return_if (second_guard vtype) (err invalid_argument)
            not_mount ← try point (give err)
            when not_mount (try (mounting vtype) (give err))
            return (ok tt))
          w).1.db
        ≡ w.db
  guarded_mount-db none first_guard second_guard point mounting hp hm w = refl
  guarded_mount-db (some vtype) first_guard second_guard point mounting hp hm w =
      elim (Result-cases (point w).0) [
        | inl (b, answered) ↦ ground (arith, hp w, hm vtype (point w).1)
        | inr (code, refused) ↦ ground (arith, hp w)
      ]

-- Two steps in turn.
module _ {W : Type 0} (first_step : W → Answer Bool × W)
    (second_step : Bool → W → Answer (Unit {0}) × W) (w : W) where
  abbrev pub in_turn : Answer (Unit {0}) × W
  in_turn = call (do a ← try first_step (give err); act (second_step a)) w

  pub in_turn_ok : (a : Bool) → (first_step w).0 ≡ ok a → in_turn ≡ second_step a (first_step w).1
  in_turn_ok a done = ground arith

  pub in_turn_err :
      (code : Code) → (first_step w).0 ≡ err code → in_turn ≡ (err code, (first_step w).1)
  in_turn_err code refused = ground arith

module _ {D F : Type 0} (host : Host D F) (devices : Devices F) where
  mount_raw-db :
      (req : NodePublishRequest) (vol : Volume) (w : World D F)
      → (mount_raw host devices req vol w).1.db ≡ w.db
  unfolding mount_raw
  mount_raw-db req vol w = ground arith

  mount_raw_block :
      (req : NodePublishRequest) (vol : Volume) (w : World D F)
      → (mount_raw host devices req vol w).0 ≡ ok tt
      → vol.is_block ≡ true
  unfolding mount_raw
  mount_raw_block req vol w accepted = ground arith

  check_mount_point-db :
      (path : Text) (w : World D F) → (check_mount_point host devices path w).1.db ≡ w.db
  unfolding check_mount_point
  check_mount_point-db path w = ground arith

  mount_type-db :
      (fp vtype : Text) (req : NodePublishRequest) (vol : Volume) (w : World D F)
      → (mount_type host devices fp vtype req vol w).1.db ≡ w.db
  unfolding mount_type
  mount_type-db fp vtype req vol w = ground arith

  mount_file_system-db :
      (tp fp : Text) (req : NodePublishRequest) (vol : Volume) (w : World D F)
      → (mount_file_system host devices tp fp req vol w).1.db ≡ w.db
  unfolding mount_file_system
  mount_file_system-db tp fp req vol w =
      guarded_mount-db (lookup tp req.volume_context)
        (λ vtype. vtype == codes "disk" && not vol.is_block)
        (λ vtype. vtype == codes "folder" && vol.is_block)
        (check_mount_point host devices req.target_path)
        (λ vtype. mount_type host devices fp vtype req vol) (check_mount_point-db req.target_path)
        (λ vtype. mount_type-db fp vtype req vol) w

  pub mount_volume-db :
      (tp fp : Text) (req : NodePublishRequest) (cap : VolumeCapability) (vol : Volume)
      (w : World D F)
      → (mount_volume host devices tp fp req cap vol w).1.db ≡ w.db
  unfolding mount_volume
  mount_volume-db tp fp req cap vol w =
      ground (arith, mount_raw-db req vol w, mount_file_system-db tp fp req vol w)

  -- What an accepted mount was.
  pub mount_volume_ok :
      (tp fp : Text) (req : NodePublishRequest) (cap : VolumeCapability) (vol : Volume)
      (w : World D F) (raw : Bool)
      → (mount_volume host devices tp fp req cap vol w).0 ≡ ok raw
      → (raw ≡ wants_block cap) × (wants_block cap ≡ true → vol.is_block ≡ true)
  unfolding mount_volume
  mount_volume_ok tp fp req cap vol w raw accepted =
      elim (Result-cases (mount_raw host devices req vol w).0) [
        | inl (u, done) ↦ (ground arith, λ block. mount_raw_block req vol w (ground arith))
        | inr (code, refused) ↦ (ground arith, λ block. absurd (ground arith))
      ]

  undo_mount-db : (path : Text) (w : World D F) → (undo_mount host devices path w).db ≡ w.db
  unfolding undo_mount
  undo_mount-db path w = refl
