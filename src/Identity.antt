-- ===== src/Identity.antt =====
-- The identity server, internal/sharedhostpath/identityserver.go.
use csi_sharedhostpath.Base.{Bool, List, [], ◌∷◌, Text, if◌then◌else◌}
use csi_sharedhostpath.Base.Run.{Result, ok, err}
use csi_sharedhostpath.Base.Strings.{is_empty}
use csi_sharedhostpath.Controller.Requests.{Code, unavailable}

pub record IdentityServer : Type 0 where
  pub name : Text
  pub is_controller : Bool
  pub version : Text

-- `NewIdentityServer`
abbrev pub new_identity_server : Text → Bool → Text → IdentityServer
new_identity_server name is_controller version = record {
  name = name;
  is_controller = is_controller;
  version = version;
}

pub record PluginInfo : Type 0 where
  pub name : Text
  pub vendor_version : Text

-- `GetPluginInfo`
unfoldable pub get_plugin_info : IdentityServer → Result Code PluginInfo
get_plugin_info ids =
    if is_empty ids.name
    then err unavailable
    else if is_empty ids.version
    then err unavailable
    else ok (record { name = ids.name; vendor_version = ids.version })

pub data PluginCapability : Type 0 where
  controller_service online_expansion : PluginCapability

-- `GetPluginCapabilities`
unfoldable pub get_plugin_capabilities : IdentityServer → List PluginCapability
get_plugin_capabilities ids =
    if ids.is_controller then controller_service ∷ online_expansion ∷ [] else []

-- `Probe`, whose answer is empty.
abbrev pub probe : IdentityServer → Unit {0}
probe ids = tt
