-- ===== src/Driver/Accepts.antt =====
-- Which settings make a driver.
use csi_sharedhostpath.Base.{
  Bool, false, none, Option-cases, Bool-cases, [], ◌∷◌, ◌++◌, ◌||◌, ◌≡◌, ◌≢◌, refl, sym, ap, ◌∙◌,
  inl, inr, arith, Text, if◌then◌else◌, sym,
}
use csi_sharedhostpath.Base.Run.{ok-injective, ok-ne-err, ok, err, Result-cases, ok-injective}
use csi_sharedhostpath.Base.Strings.{is_empty}
use csi_sharedhostpath.Host.Db.{Err}
use csi_sharedhostpath.Host.World.{World, Host}
use csi_sharedhostpath.Driver.{
  Globals, Driver, no_connection, Settings, Program, new_shared_host_path_driver,
}
use csi_sharedhostpath.Volumes.Opening.{Opener, new_volume_helper}
use csi_sharedhostpath.Volumes.Paths.{VolumeHelper}

-- No argument but the version is empty.
abbrev pub IsComplete : Settings → Type 0
IsComplete settings =
    (settings.driver_name ≢ [])
    × (settings.node_id ≢ [])
    × (settings.endpoint ≢ [])
    × (settings.data_root ≢ [])
    × (settings.dsn ≢ [])

-- The version of the settings, or the one before where that is empty.
abbrev pub version_of : Settings → Globals → Text
version_of settings g = if is_empty settings.version then g.vendor_version else settings.version

abbrev pub globals_of : Settings → Globals → Globals
globals_of settings g = record {
  vendor_version = version_of settings g;
  fstype_parameter = settings.driver_name ++ g.fstype_parameter;
  type_parameter = settings.driver_name ++ g.type_parameter;
}

abbrev driver_of : Settings → Globals → VolumeHelper → Driver
driver_of settings g vh = record {
  name = settings.driver_name;
  node_id = settings.node_id;
  version = version_of settings g;
  endpoint = settings.endpoint;
  max_volumes_per_node = settings.max_volumes_per_node;
  vh = vh;
}

is_empty-false : (s : Text) → is_empty s ≡ false → s ≢ []
is_empty-false [] e = cc
is_empty-false (c ∷ s) e = λ same. cc

abbrev incomplete : Settings → Bool
incomplete settings =
    is_empty settings.driver_name
    || (is_empty settings.node_id
        || (is_empty settings.endpoint || (is_empty settings.data_root || is_empty settings.dsn)))

complete : (settings : Settings) → incomplete settings ≡ false → IsComplete settings
complete settings full = (
  is_empty-false settings.driver_name (ground arith),
  is_empty-false settings.node_id (ground arith),
  is_empty-false settings.endpoint (ground arith),
  is_empty-false settings.data_root (ground arith),
  is_empty-false settings.dsn (ground arith),
)

module _ {D F : Type 0} (host : Host D F) (opener : Opener D F) where
  reaches_driver :
      (settings : Settings) (p : Program D F) (vh : VolumeHelper)
      → let (made, s) = host.os.mkdir_all settings.data_root p.world.os in
        let opening =
          new_volume_helper host opener settings.data_root settings.dsn
            (record p.world { os = s }) in
        incomplete settings ≡ false
        → made ≡ none
        → opening.0 ≡ ok vh
        → new_shared_host_path_driver host opener settings p ≡ (
          ok (driver_of settings p.globals vh),
          record { globals = globals_of settings p.globals; world = opening.1 },
        )
  unfolding new_shared_host_path_driver
  reaches_driver settings p vh full done opened = ground arith

  fails_opening :
      (settings : Settings) (p : Program D F) (e : Err)
      → let (made, s) = host.os.mkdir_all settings.data_root p.world.os in
        let opening =
          new_volume_helper host opener settings.data_root settings.dsn
            (record p.world { os = s }) in
        incomplete settings ≡ false
        → made ≡ none
        → opening.0 ≡ err e
        → (new_shared_host_path_driver host opener settings p).0 ≡ err (no_connection e)
  unfolding new_shared_host_path_driver
  fails_opening settings p e full done failed = ground arith

  pub new_driver_accepted :
      (settings : Settings) (p : Program D F) (shp : Driver)
      → let (answer, p') = new_shared_host_path_driver host opener settings p in
        answer ≡ ok shp
        → IsComplete settings
          × (shp.name ≡ settings.driver_name)
          × (shp.node_id ≡ settings.node_id)
          × (shp.endpoint ≡ settings.endpoint)
          × (shp.max_volumes_per_node ≡ settings.max_volumes_per_node)
          × (shp.version ≡ version_of settings p.globals)
          × (p'.globals ≡ globals_of settings p.globals)
  unfolding new_shared_host_path_driver
  new_driver_accepted settings p shp accepted =
      let g = globals_of settings p.globals in
      let (made, s) = host.os.mkdir_all settings.data_root p.world.os in
      let w : World D F = record p.world { os = s } in
      elim (Bool-cases (incomplete settings)) [
        | inl lacks ↦ absurd (ground arith)
        | inr full ↦ elim (Option-cases made) [
          | inr (e, failed) ↦ absurd (ground arith)
          | inl done ↦
              elim (Result-cases
                (new_volume_helper host opener settings.data_root settings.dsn w).0) [
                  | inr (e, failed) ↦
                      absurd
                        (ok-ne-err (sym accepted ∙ fails_opening settings p e full done failed))
                  | inl (vh, opened) ↦
                      let reached = reaches_driver settings p vh full done opened in
                      let same : shp ≡ driver_of settings p.globals vh =
                        ok-injective (sym accepted ∙ ap (λ x. x.0) reached) in
                      rw (same, reached)
                        (complete settings full, refl, refl, refl, refl, refl, refl)
                ]
        ]
      ]
