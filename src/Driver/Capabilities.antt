-- ===== src/Driver/Capabilities.antt =====
-- What the servers of a driver say of themselves.
use csi_sharedhostpath.Base.{false, [], ◌∷◌, ◌≡◌, ◌≢◌, refl, ap, ◌∙◌, arith, Text, if◌then◌else◌}
use csi_sharedhostpath.Base.Run.{ok}
use csi_sharedhostpath.Base.Strings.{is_empty}
use csi_sharedhostpath.Driver.{Driver, Settings, Program, new_shared_host_path_driver}
use csi_sharedhostpath.Driver.Roles.{
  Servers, services_of, controller_servers, node_servers, both_servers,
}
use csi_sharedhostpath.Driver.Accepts.{version_of, new_driver_accepted}
use csi_sharedhostpath.Host.World.{World, Host}
use csi_sharedhostpath.Identity.{
  get_plugin_info, get_plugin_capabilities, controller_service, online_expansion,
}
use csi_sharedhostpath.Volumes.Opening.{Opener}

-- The identity server answers with the name and the version, and offers the service of a
-- controller and the growth of volumes in use exactly if there is a controller.
abbrev pub Tells : Text → Text → Servers → Type 0
Tells name version servers =
    (get_plugin_info servers.ids ≡ ok (record { name = name; vendor_version = version }))
    × (get_plugin_capabilities servers.ids ≡ (
        if (services_of servers).controller
        then controller_service ∷ online_expansion ∷ []
        else []))

is_empty_lem : (s : Text) → s ≢ [] → is_empty s ≡ false
is_empty_lem [] full = absurd (full refl)
is_empty_lem (c ∷ s) full = refl

module _ {D F : Type 0} (host : Host D F) (opener : Opener D F) where
  pub new_driver-Tells :
      (settings : Settings) (p : Program D F) (shp : Driver)
      → p.globals.vendor_version ≢ []
      → (new_shared_host_path_driver host opener settings p).0 ≡ ok shp
      → (w : World D F)
      → let version = version_of settings p.globals in
        Tells settings.driver_name version (controller_servers host shp w).0
        × Tells settings.driver_name version (node_servers host shp w).0
        × Tells settings.driver_name version (both_servers host shp w).0
  unfolding controller_servers node_servers both_servers get_plugin_info get_plugin_capabilities
  new_driver-Tells settings p shp known accepted w =
      let (full, is_name, _, _, _, is_version, _) =
        new_driver_accepted host opener settings p shp accepted in
      let named : is_empty shp.name ≡ false =
        ap is_empty is_name ∙ is_empty_lem settings.driver_name full.0 in
      let before = is_empty_lem p.globals.vendor_version known in
      let versioned : is_empty shp.version ≡ false = ap is_empty is_version ∙ ground arith in
      ((ground arith, ground arith), (ground arith, ground arith), (ground arith, ground arith))
