-- ===== src/Controller/Listing/Following.antt =====
-- A client of `ListVolumes` that follows the tokens, on a database that keeps no order.
use Prim.Native.Nat.{min}
use mathlib.Core.List as Lists
use mathlib.Core.List.{Perm, Mem, Mem-prop, mem-append, mem-append_left, append-nil}
use mathlib.Core.List.Perm
use mathlib.Core.Logic.Or
use mathlib.Core.Nat as Unary
use csi_sharedhostpath.Base.{
  ℕ, zero, suc, ◌+◌, ◌-◌, ◌^◌, ◌≤◌, ◌<◌, true, some, Bool-cases, List, [], ◌∷◌, ◌++◌, map, ◌≡◌,
  refl, sym, ap, ◌∙◌, ◌⊎◌, inl, inr, arith, Text, length, length-append, leb, nat_eq,
}
use csi_sharedhostpath.Base.Int.{ℤ, pos}
use csi_sharedhostpath.Base.Strings.{is_empty}
use csi_sharedhostpath.Controller.Listing.{
  starting_token, max_entries, next_starting_token, token_text, list_volumes,
}
use csi_sharedhostpath.Controller.Listing.Client.{
  PageLaws, told, kept, list_all, list_volumes_found,
}
use csi_sharedhostpath.Controller.Listing.Pages.{next_token, last_token}
use csi_sharedhostpath.Controller.Requests.{Entry}
use csi_sharedhostpath.Host.Db.Laws.{DbLaws}
use csi_sharedhostpath.Host.Rows.{Volume}
use csi_sharedhostpath.Host.World.{World, Host}

-- The number of a list, counted by the library.
native : Unary.ℕ → ℕ
native Unary.zero = 0
native (Unary.suc n) = suc (native n)

module _ {A : Type 0} where
  length-native : (l : List A) → length l ≡ native (Lists.length l)
  unfolding native
  length-native [] = refl
  length-native (x ∷ l) = ap suc (length-native l)

  length-Perm : {l m : List A} → Perm l m → length l ≡ length m
  length-Perm {l} {m} p = length-native l ∙ ap native (Perm.length-eq p) ∙ sym (length-native m)

  -- A part of a list that has the length of the list is the list in some order.
  whole : (l others m : List A) → Perm (l ++ others) m → length m ≤ length l → Perm l m
  whole l [] m p long = rw append-nil at p
  whole l (x ∷ others) m p long =
      absurd (omega (arith, length-Perm p, length-append l (x ∷ others)))

module _ {A B : Type 0} (f : A → B) where
  map-append : (xs ys : List A) → map f (xs ++ ys) ≡ map f xs ++ map f ys
  map-append [] ys = refl
  map-append (x ∷ xs) ys = ap (λ l. f x ∷ l) (map-append xs ys)

  length-map : (l : List A) → length (map f l) ≡ length l
  length-map [] = refl
  length-map (x ∷ l) = ap suc (length-map l)

-- What one request leaves of the rows to be had, and how it goes on.
module _ {D F : Type 0} (host : Host D F) (type_parameter : Text) (laws : DbLaws host.db)
    (pages : PageLaws host.db laws) (volumes : List Volume) (bound : length volumes < 2 ^ 31)
    (asked : ℤ) (limit : ℕ) (small : limit < 2 ^ 31) (positive : 0 < limit)
    (effective : max_entries asked ≡ pos limit) where
  open laws use {tables}

  -- Entries that were got from an offset on: as many as there are rows from there, each of a row,
  -- and each row once where one page holds them all.
  abbrev Got : ℕ → List Entry → Type 0
  Got start es =
      (length es ≡ length volumes - start)
      × ((x : Text × ℤ) → Mem x (map told es) → Mem x (map kept volumes))
      × (start ≡ 0 → length volumes ≤ limit → Perm (map told es) (map kept volumes))

  page-Got :
      (start : ℕ) (es : List Entry) (rows others : List Volume)
      → map told es ≡ map kept rows
      → length rows ≡ min limit (length volumes - start)
      → Perm (rows ++ others) volumes
      → (length es ≡ min limit (length volumes - start))
        × ((x : Text × ℤ) → Mem x (map told es) → Mem x (map kept volumes))
        × (start ≡ 0 → length volumes ≤ limit → Perm (map told es) (map kept volumes))
  page-Got start es rows others same counted cut =
      let number : length es ≡ length rows =
        sym (length-map told es) ∙ ap length same ∙ length-map kept rows in
      let below : Perm (map kept rows ++ map kept others) (map kept volumes) =
        rw (← map-append kept rows others) (Perm.map kept cut) in
      (
        number ∙ counted,
        λ x m. (Perm.mem_iff below).0 (mem-append_left (map kept others) (rw same at m)),
        λ first all. rw same (Perm.map kept (whole rows others volumes cut (omega arith))),
      )

  list_all_from :
      (f start : ℕ) (token : Text) (w : World D F)
      → starting_token token ≡ some (pos start)
      → start ≤ length volumes
      → length volumes - start < f
      → (tables w.db).volumes ≡ volumes
      → (es : List Entry) × ((list_all host type_parameter f asked token w).0 ≡ some es)
        × Got start es
  unfolding list_all
  list_all_from zero start token w parsed early fuel there = absurd (omega arith)
  list_all_from (suc f) start token w parsed early fuel there =
      let next = token_text (next_starting_token (pos start) (pos limit) (length volumes)) in
      let (es, rows, answered, same, (counted, (others, cut)), kept_tables) =
        list_volumes_found host type_parameter laws pages token asked start limit w parsed
          effective in
      let answered' = rw there at answered in
      let (number, sound, all) =
        page-Got start es rows others same (rw there at counted) (rw there at cut) in
      let w' =
        (list_volumes host type_parameter (record { starting_token = token; max_entries = asked })
          w).1 in
      let last : is_empty next ≡ true
          → length volumes ≤ start + limit
          → (es : List Entry) × ((list_all host type_parameter (suc f) asked token w).0 ≡ some es)
            × Got start es =
        λ done end. (es, ground (arith, answered', done), (omega arith, sound, all)) in
      elim (Bool-cases (leb (length volumes) (start + limit))) [
        | inl end ↦
            let end' : length volumes ≤ start + limit = ground arith in
            last (last_token start limit (length volumes) small (omega arith) (inr end')) end'
        | inr further ↦
            let on : start + limit < length volumes = ground arith in
            let finite : limit < 2 ^ 31 - 1 = omega arith in
            let (more, read) = next_token start limit (length volumes) finite on bound in
            let (rest, got, (number', sound', all')) =
              list_all_from f (start + limit) next w' read (omega arith) (omega arith)
                (ap (λ t. t.volumes) kept_tables ∙ there) in
            (
              es ++ rest,
              ground (arith, answered', more, got),
              (
                omega (arith, length-append es rest, number, number'),
                λ x m.
                    Or.elim Mem-prop (mem-append.0 (rw (map-append told es rest) at m)) (sound x)
                      (sound' x),
                λ first short. absurd (omega arith),
              ),
            )
      ]

-- A client that sends `ListVolumes` requests for at most `limit` entries, 0 for no limit, and
-- follows the tokens ends after at most one request more than there are rows, with as many
-- entries as there are rows, each with the identifier and the capacity of a row; without a limit,
-- or with one that is not below the number of the rows, it has got every volume once. There are
-- fewer than 2^31 rows, `limit` is below 2^31, and the queries of the listings do not fail; which
-- rows a page has is open.
pub list_all_ends :
    {D F : Type 0} (host : Host D F) (type_parameter : Text) (laws : DbLaws host.db)
    (pages : PageLaws host.db laws) (limit : ℕ) (w : World D F)
    → limit < 2 ^ 31
    → let volumes = (laws.tables w.db).volumes in
      length volumes < 2 ^ 31
      → (es : List Entry) × ((list_all host type_parameter
            (suc (length volumes))
            (pos limit)
            []
            w).0
          ≡ some es)
        × (length es ≡ length volumes)
        × ((x : Text × ℤ) → Mem x (map told es) → Mem x (map kept volumes))
        × ((limit ≡ 0) ⊎ (length volumes ≤ limit) → Perm (map told es) (map kept volumes))
unfolding max_entries starting_token
list_all_ends host type_parameter laws pages zero w small bound =
    let volumes = (laws.tables w.db).volumes in
    let (es, got, (number, sound, all)) =
      list_all_from host type_parameter laws pages volumes bound (pos 0) (2 ^ 31 - 1) (omega arith)
        (omega arith) (ground arith) (suc (length volumes)) 0 [] w refl (omega arith) (omega arith)
        refl in
    (es, got, omega arith, sound, λ h. all refl (omega arith))
list_all_ends host type_parameter laws pages (suc n) w small bound =
    let volumes = (laws.tables w.db).volumes in
    let (es, got, (number, sound, all)) =
      list_all_from host type_parameter laws pages volumes bound (pos (suc n)) (suc n) small
        (omega arith) (ground arith) (suc (length volumes)) 0 [] w refl (omega arith) (omega arith)
        refl in
    (
      es,
      got,
      omega arith,
      sound,
      λ h. elim h [ inl never ↦ absurd (omega arith) | inr short ↦ all refl short ],
    )
