-- ===== src/Host/World.antt =====
-- The state that the program runs in: the database's and the operating system's, and how a call
-- of the one leaves the other alone.
use csi_sharedhostpath.Base.{none, some, List}
use csi_sharedhostpath.Base.Run.{Result, ok, err}
use csi_sharedhostpath.Host.Db.{Db, Err, Rows}
use csi_sharedhostpath.Host.Os.{Os}

pub record World (D F : Type 0) : Type 0 where
  pub db : D
  pub os : F

pub record Host (D F : Type 0) : Type 0 where
  pub db : Db D
  pub os : Os F

module _ {D F A : Type 0} where
  abbrev pub on_db : (D → A × D) → World D F → A × World D F
  on_db f w = let (a, d) = f w.db in (a, record w { db = d })

  abbrev pub on_os : (F → A × F) → World D F → A × World D F
  on_os f w = let (a, s) = f w.os in (a, record w { os = s })

module _ {D F A : Type 0} where
  -- The rows of a `Find`, or the error of its result.
  unfoldable pub find :
      (World D F → Rows A × World D F) → World D F → Result Err (List A) × World D F
  find query w =
      let ((rows, e), w') = query w in
      elim e [ none ↦ (ok rows, w') | some failure ↦ (err failure, w') ]

  -- The rows of a `Find` whose own error is dropped, or the error of the handle `vh.db`.
  unfoldable pub find_by_handle :
      Host D F → (World D F → Rows A × World D F) → World D F → Result Err (List A) × World D F
  find_by_handle host query w =
      let ((rows, e), w') = query w in
      elim (host.db.handle_error w'.db) [ none ↦ (ok rows, w') | some failure ↦ (err failure, w') ]
