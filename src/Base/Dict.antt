-- ===== src/Base/Dict.antt =====
-- Go's maps from text to text, as association lists in insertion order.
use mathlib.Core.Path.{◌≡◌, refl}
use mathlib.Core.Option.{Option, none, some}
use mathlib.Core.List.{List, [], ◌∷◌}
use native.Mathlib.Omega.{arith}
use csi_sharedhostpath.Base.Tests.{Text, ◌==◌, text_eq, if◌then◌else◌}

abbrev pub Dict : Type 0
Dict = List (Text × Text)

-- `v, found := d[k]`
unfoldable pub lookup : Text → Dict → Option Text
lookup k [] = none
lookup k ((j, v) ∷ d) = if j == k then some v else lookup k d

-- `d[k] = v`
unfoldable pub insert : Text → Text → Dict → Dict
insert k v [] = (k, v) ∷ []
insert k v ((j, w) ∷ d) = if j == k then (k, v) ∷ d else (j, w) ∷ insert k v d

pub lookup-insert :
    (j k v : Text) (d : Dict) → lookup j (insert k v d) ≡ (if k == j then some v else lookup j d)
unfolding lookup insert
lookup-insert j k v [] = refl
lookup-insert j k v ((i, w) ∷ d) = ground (arith, lookup-insert j k v d)
