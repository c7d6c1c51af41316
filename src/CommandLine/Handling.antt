-- ===== src/CommandLine/Handling.antt =====
-- What a run of the program does.
use csi_sharedhostpath.Base.{
  true, false, ◌||◌, Bool-cases, [], ◌≡◌, ◌≢◌, refl, ◌∙◌, inl, inr, arith, Text, ◌==◌, nat_eq, ◌⊎◌,
}
use csi_sharedhostpath.Base.Run.{ok, err, Result-cases}
use csi_sharedhostpath.CommandLine.{Flags, exited, waits, flag_count, run_job, run_driver, handle}
use csi_sharedhostpath.Driver.{Program, Driver, DriverError, new_shared_host_path_driver}
use csi_sharedhostpath.Driver.Roles.{Servers, services_of, controller_servers, node_servers}
use csi_sharedhostpath.Driver.Accepts.{IsComplete, version_of, new_driver_accepted}
use csi_sharedhostpath.Driver.Capabilities.{Tells, new_driver-Tells}
use csi_sharedhostpath.Host.Db.Laws.{DbLaws}
use csi_sharedhostpath.Host.World.{World, Host}
use csi_sharedhostpath.Volumes.Cleanup.Tables.{
  clean_up_dangling_volumes-tables, rebuild_sym_links-tables,
}
use csi_sharedhostpath.Volumes.Opening.{Opener, new_volume_helper}
use csi_sharedhostpath.Volumes.Paths.{VolumeHelper}

only_controller :
    (flags : Flags) → flag_count flags ≡ 1 → flags.controller ≡ true → flags.node ≡ false
only_controller flags one controller = ground arith

module _ {D F : Type 0} (host : Host D F) (opener : Opener D F) where
  -- The process serves exactly what its flags ask for.
  abbrev pub Serves : Flags → Program D F → Text → Servers → Type 0
  Serves flags p endpoint servers =
      (flag_count flags ≡ 1)
      × IsComplete flags.settings
      × (endpoint ≡ flags.settings.endpoint)
      × ((services_of servers).controller ≡ flags.controller)
      × ((services_of servers).node ≡ flags.node)
      × Tells flags.settings.driver_name (version_of flags.settings p.globals) servers

  run_driver_waits :
      (flags : Flags) (p : Program D F) (endpoint : Text) (servers : Servers) (shp : Driver)
      → let (answer, p') = new_shared_host_path_driver host opener flags.settings p in
        answer ≡ ok shp
        → (run_driver host opener flags p).0 ≡ waits endpoint servers
        → (endpoint ≡ shp.endpoint)
          × ((flags.controller ≡ true) × (servers ≡ (controller_servers host shp p'.world).0)
              ⊎ (flags.controller ≡ false)
                × (flags.node ≡ true)
                × (servers ≡ (node_servers host shp p'.world).0))
  unfolding run_driver
  run_driver_waits flags p endpoint servers shp made waiting = elim (Bool-cases flags.controller) [
    | inl controller ↦ (ground arith, inl (controller, ground arith))
    | inr no_controller ↦ elim (Bool-cases flags.node) [
      | inl node ↦ (ground arith, inr (no_controller, node, ground arith))
      | inr no_node ↦ absurd (ground arith)
    ]
  ]

  run_driver_fails :
      (flags : Flags) (p : Program D F) (endpoint : Text) (servers : Servers) (e : DriverError)
      → (new_shared_host_path_driver host opener flags.settings p).0 ≡ err e
      → (run_driver host opener flags p).0 ≢ waits endpoint servers
  unfolding run_driver
  run_driver_fails flags p endpoint servers e failed waiting = ground arith

  run_job_exits :
      (flags : Flags) (p : Program D F) (endpoint : Text) (servers : Servers)
      → (run_job host opener flags p).0 ≢ waits endpoint servers
  unfolding run_job
  run_job_exits flags p endpoint servers waiting = ground arith

  handle_driver :
      (flags : Flags) (p : Program D F) (endpoint : Text) (servers : Servers)
      → (handle host opener flags p).0 ≡ waits endpoint servers
      → (flag_count flags ≡ 1)
        × ((flags.rebuildsymlinks || flags.cleanupdangling) ≡ false)
        × ((run_driver host opener flags p).0 ≡ waits endpoint servers)
  unfolding handle
  handle_driver flags p endpoint servers waiting = elim (Bool-cases (flag_count flags == 1)) [
    | inr other ↦ absurd (ground arith)
    | inl one ↦ elim (Bool-cases (flags.rebuildsymlinks || flags.cleanupdangling)) [
      | inl job ↦ absurd (ground (arith, run_job_exits flags p endpoint servers))
      | inr no_job ↦ (ground arith, no_job, ground arith)
    ]
  ]

  controller_services :
      (shp : Driver) (w : World D F)
      → let services = services_of (controller_servers host shp w).0 in
        (services.controller ≡ true) × (services.node ≡ false)
  unfolding controller_servers
  controller_services shp w = (refl, refl)

  node_services :
      (shp : Driver) (w : World D F)
      → let services = services_of (node_servers host shp w).0 in
        (services.controller ≡ false) × (services.node ≡ true)
  unfolding node_servers
  node_services shp w = (refl, refl)

  -- If a run of `handle` ends with servers that are waited for, exactly one of the four flags was
  -- set, and it was the one of a controller or of a node; no setting but the version is empty;
  -- the servers are at the endpoint of the settings; there is a controller server exactly for the
  -- flag of a controller and a node server exactly for that of a node; and the identity server
  -- answers with the name of the driver and the version of the build, or the default where the
  -- build has none, and offers the service of a controller exactly if there is one. The default
  -- of the version is not empty.
  pub handle-Serves :
      (flags : Flags) (p : Program D F) (endpoint : Text) (servers : Servers)
      → p.globals.vendor_version ≢ []
      → (handle host opener flags p).0 ≡ waits endpoint servers
      → Serves flags p endpoint servers
  handle-Serves flags p endpoint servers known waiting =
      let (one, no_job, runs) = handle_driver flags p endpoint servers waiting in
      elim (Result-cases (new_shared_host_path_driver host opener flags.settings p).0) [
        | inr (e, failed) ↦ absurd (run_driver_fails flags p endpoint servers e failed runs)
        | inl (shp, made) ↦
            let (full, is_name, is_node, is_endpoint, _, _, _) =
              new_driver_accepted host opener flags.settings p shp made in
            let p' = (new_shared_host_path_driver host opener flags.settings p).1 in
            let (at_controller, at_node, at_both) =
              new_driver-Tells host opener flags.settings p shp known made p'.world in
            let (same, which) = run_driver_waits flags p endpoint servers shp made runs in
            elim which [
              | inl (controller, is_servers) ↦ (
                one,
                full,
                same ∙ is_endpoint,
                rw (is_servers, controller) (controller_services shp p'.world).0,
                rw (is_servers, only_controller flags one controller)
                    (controller_services shp p'.world).1,
                rw is_servers at_controller,
              )
              | inr (no_controller, node, is_servers) ↦ (
                one,
                full,
                same ∙ is_endpoint,
                rw (is_servers, no_controller) (node_services shp p'.world).0,
                rw (is_servers, node) (node_services shp p'.world).1,
                rw is_servers at_node,
              )
            ]
      ]

  -- The status is 0 whatever the job returns.
  run_job_status :
      (flags : Flags) (p : Program D F) (vh : VolumeHelper)
      → (new_volume_helper host opener flags.settings.data_root flags.settings.dsn p.world).0
        ≡ ok vh
      → (run_job host opener flags p).0 ≡ exited 0
  unfolding run_job
  run_job_status flags p vh opened = ground arith

  module _ (laws : DbLaws host.db)
      (opening : (dsn : Text) (d : D) → laws.tables (opener.open_db dsn d).1 ≡ laws.tables d)
      (migrating : (d : D) → laws.tables (opener.auto_migrate d).1 ≡ laws.tables d) where
    open laws use {tables}

    new_volume_helper-tables :
        (data_root dsn : Text) (w : World D F)
        → tables (new_volume_helper host opener data_root dsn w).1.db ≡ tables w.db
    unfolding new_volume_helper
    new_volume_helper-tables data_root dsn w =
        ground (arith, opening dsn w.db, migrating (opener.open_db dsn w.db).1)

    run_job-tables :
        (flags : Flags) (p : Program D F)
        → tables (run_job host opener flags p).1.world.db ≡ tables p.world.db
    unfolding run_job
    run_job-tables flags p =
        let (r, w) =
          new_volume_helper host opener flags.settings.data_root flags.settings.dsn p.world in
        let same = new_volume_helper-tables flags.settings.data_root flags.settings.dsn p.world in
        elim (Result-cases r) [
          | inr (e, failed) ↦ ground (arith, same)
          | inl (vh, opened) ↦ ground (
            arith,
            same,
            rebuild_sym_links-tables host laws vh w,
            clean_up_dangling_volumes-tables host laws vh w,
          )
        ]

    -- A run of `handle` with the flag of a job leaves the tables as they are, whatever else is
    -- set and whatever fails, if the opening of the database and the migration leave them.
    handle_job-tables :
        (flags : Flags) (p : Program D F)
        → (flags.rebuildsymlinks || flags.cleanupdangling) ≡ true
        → tables (handle host opener flags p).1.world.db ≡ tables p.world.db
    unfolding handle
    handle_job-tables flags p job = ground (arith, run_job-tables flags p)
