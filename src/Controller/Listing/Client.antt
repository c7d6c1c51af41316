-- ===== src/Controller/Listing/Client.antt =====
-- A client of `ListVolumes` that follows the tokens: its requests, and what one of them finds.
use Prim.Native.Nat.{min}
use mathlib.Core.List.{Perm}
use csi_sharedhostpath.Base.{
  ℕ, zero, suc, ◌-◌, Option, none, some, List, [], ◌∷◌, ◌++◌, map, ◌≡◌, refl, ap, ◌∙◌, arith, Text,
  length, if◌then◌else◌,
}
use csi_sharedhostpath.Base.Int.{ℤ, pos}
use csi_sharedhostpath.Base.Run.{ok, err}
use csi_sharedhostpath.Base.Strings.{is_empty}
use csi_sharedhostpath.Controller.Listing.{
  starting_token, max_entries, next_starting_token, token_text, entry_of, list_volumes,
}
use csi_sharedhostpath.Controller.Requests.{Entry}
use csi_sharedhostpath.Host.Db.{Db}
use csi_sharedhostpath.Host.Db.Laws.{DbLaws}
use csi_sharedhostpath.Host.Rows.{Volume}
use csi_sharedhostpath.Host.World.{World, Host, find_by_handle}
use csi_sharedhostpath.Volumes.Details.{
  VolumeDetail, detail_of, volume_detail, volume_details, get_volumes_with_detail, get_volume_count,
}

-- What a listing reads. An offset and a limit leave out the rows before the offset and those above
-- the limit, but which rows these are is open, since the query asks for no order: of a page only the
-- number of its rows is known, and that it is cut out of the rows in some order. The queries do not
-- fail.
pub record PageLaws {D : Type 0} (db : Db D) (laws : DbLaws db) : Type 0 where
  pub quiet : (d : D) → db.handle_error d ≡ none
  pub find_page :
      (offset limit : ℕ) (d : D)
      → let rows = (db.find_volumes_page (pos offset) (pos limit) d).0.0 in
        let volumes = (laws.tables d).volumes in
        (length rows ≡ min limit (length volumes - offset))
        × ((others : List Volume) × Perm (rows ++ others) volumes)
  pub find_count : (d : D) → length (db.find_volume_ids d).0.0 ≡ length (laws.tables d).volumes

-- What an entry and what a row say of a volume.
abbrev pub told : Entry → Text × ℤ
told e = (e.volume_id, e.capacity_bytes)

abbrev pub kept : Volume → Text × ℤ
kept v = (v.vol_id, v.capacity)

abbrev detailed : VolumeDetail → Text × ℤ
detailed d = (d.volume_id, d.capacity)

told-entry_of : (ds : List VolumeDetail) → map told (map entry_of ds) ≡ map detailed ds
told-entry_of [] = refl
told-entry_of (d ∷ ds) = ap (λ l. detailed d ∷ l) (told-entry_of ds)

module _ {D F : Type 0} (host : Host D F) (type_parameter : Text) where
  -- All entries, by as many requests as the fuel.
  unfoldable pub list_all : ℕ → ℤ → Text → World D F → Option (List Entry) × World D F
  list_all zero limit token w = (none, w)
  list_all (suc f) limit token w =
      let (answer, w') =
        list_volumes host type_parameter (record { starting_token = token; max_entries = limit })
          w in
      elim answer [
        | err code ↦ (none, w')
        | ok page ↦
            let (rest, w'') = list_all f limit page.next_token w' in
            if is_empty page.next_token
            then (some page.entries, w')
            else (elim rest [ none ↦ none | some more ↦ some (page.entries ++ more) ], w'')
      ]

  module _ (laws : DbLaws host.db) (pages : PageLaws host.db laws) where
    open laws use {tables}

    volume_detail_found :
        (vol : Volume) (w : World D F)
        → (d : VolumeDetail) × ((volume_detail host type_parameter vol w).0 ≡ ok d)
          × (detailed d ≡ kept vol)
          × (tables (volume_detail host type_parameter vol w).1.db ≡ tables w.db)
    unfolding volume_detail find_by_handle detail_of
    volume_detail_found vol w =
        let asked = host.db.find_controller_infos vol.vol_id w.db in
        let calm = pages.quiet asked.1 in
        (
          detail_of type_parameter vol asked.0.0 (host.os.stat vol.vol_path w.os).0,
          ground (arith, calm),
          refl,
          ground (arith, calm, (laws.find_controller_infos_lem vol.vol_id w.db).1),
        )

    volume_details_found :
        (vols : List Volume) (w : World D F)
        → (ds : List VolumeDetail) × ((volume_details host type_parameter vols w).0 ≡ ok ds)
          × (map detailed ds ≡ map kept vols)
          × (tables (volume_details host type_parameter vols w).1.db ≡ tables w.db)
    unfolding volume_details
    volume_details_found [] w = ([], refl, refl, refl)
    volume_details_found (vol ∷ vols) w =
        let one = volume_detail host type_parameter vol w in
        let (d, is_d, same, order) = volume_detail_found vol w in
        let (ds, are_ds, sames, orders) = volume_details_found vols one.1 in
        (
          d ∷ ds,
          ground (arith, is_d, are_ds),
          ground (arith, same, sames),
          ground (arith, is_d, are_ds, order, orders),
        )

    -- A page of the volumes of the tables.
    abbrev IsPage : ℕ → ℕ → List Volume → List Volume → Type 0
    IsPage start limit volumes rows =
        (length rows ≡ min limit (length volumes - start))
        × ((others : List Volume) × Perm (rows ++ others) volumes)

    get_volumes_with_detail_found :
        (start limit : ℕ) (w : World D F)
        → let (answer, w') =
            get_volumes_with_detail host type_parameter (pos start) (pos limit) w in
          (ds : List VolumeDetail) × (rows : List Volume) × (answer ≡ ok ds)
          × (map detailed ds ≡ map kept rows)
          × IsPage start limit (tables w.db).volumes rows
          × (tables w'.db ≡ tables w.db)
    unfolding get_volumes_with_detail find_by_handle
    get_volumes_with_detail_found start limit w =
        let asked = host.db.find_volumes_page (pos start) (pos limit) w.db in
        let calm = pages.quiet asked.1 in
        let same = laws.find_page_tables (pos start) (pos limit) w.db in
        let (ds, are_ds, sames, sames') =
          volume_details_found asked.0.0 (record w { db = asked.1 }) in
        (
          ds,
          asked.0.0,
          ground (arith, calm, are_ds),
          sames,
          pages.find_page start limit w.db,
          ground (arith, calm, are_ds, sames', same),
        )

    get_volume_count_found :
        (w : World D F)
        → ((get_volume_count host type_parameter w).0 ≡ ok (length (tables w.db).volumes))
          × (tables (get_volume_count host type_parameter w).1.db ≡ tables w.db)
    unfolding get_volume_count find_by_handle
    get_volume_count_found w =
        let asked = host.db.find_volume_ids w.db in
        let calm = pages.quiet asked.1 in
        let count = pages.find_count w.db in
        (ground (arith, calm, count), ground (arith, calm, (laws.find_ids w.db).1))

    -- One request.
    pub list_volumes_found :
        (token : Text) (asked : ℤ) (start limit : ℕ) (w : World D F)
        → starting_token token ≡ some (pos start)
        → max_entries asked ≡ pos limit
        → let (answer, w') =
            list_volumes host type_parameter
              (record { starting_token = token; max_entries = asked })
              w in
          (es : List Entry) × (rows : List Volume) × (answer
            ≡ ok (record {
              entries = es;
              next_token =
                  token_text
                    (next_starting_token (pos start) (pos limit) (length (tables w.db).volumes));
            }))
          × (map told es ≡ map kept rows)
          × IsPage start limit (tables w.db).volumes rows
          × (tables w'.db ≡ tables w.db)
    unfolding list_volumes
    list_volumes_found token asked start limit w parsed effective =
        let details = get_volumes_with_detail host type_parameter (pos start) (pos limit) w in
        let (ds, rows, are_ds, sames, is_page, same) =
          get_volumes_with_detail_found start limit w in
        let (count, same') = get_volume_count_found details.1 in
        (
          map entry_of ds,
          rows,
          ground (arith, parsed, effective, are_ds, count, same),
          told-entry_of ds ∙ sames,
          is_page,
          ground (arith, parsed, effective, are_ds, count, same, same'),
        )
