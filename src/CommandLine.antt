-- ===== src/CommandLine.antt =====
-- `main` and `handle`, cmd/sharedhostpath/main.go.
pub mod Handling
use csi_sharedhostpath.Base.{
  ℕ, suc, Bool, true, false, not, ◌||◌, Option, none, some, Text, ◌==◌, nat_eq, if◌then◌else◌,
}
use csi_sharedhostpath.Base.Run.{
  Result, ok, err, Run, ◌>>=◌, ◌>>◌, return, return_if, act, ignore, try, give, call,
}
use csi_sharedhostpath.Driver.{Settings, Program, on_world, new_shared_host_path_driver}
use csi_sharedhostpath.Driver.Roles.{Servers, controller_servers, node_servers}
use csi_sharedhostpath.Host.World.{World, Host}
use csi_sharedhostpath.Volumes.Cleanup.{rebuild_sym_links, clean_up_dangling_volumes}
use csi_sharedhostpath.Volumes.Opening.{Opener, new_volume_helper}

-- The flags; `settings.version` is what the build sets.
pub record Flags : Type 0 where
  pub show_version : Bool
  pub controller : Bool
  pub node : Bool
  pub rebuildsymlinks : Bool
  pub cleanupdangling : Bool
  pub settings : Settings

-- The process has ended with a status, or it has started servers at an endpoint and waits for them.
pub data Outcome : Type 0 where
  exited : ℕ → Outcome
  waits : Text → Servers → Outcome

-- `if flag { f_cnt++ }`
abbrev count : Bool → ℕ → ℕ
count flag n = if flag then suc n else n

abbrev pub flag_count : Flags → ℕ
flag_count flags =
    count flags.cleanupdangling
      (count flags.rebuildsymlinks (count flags.node (count flags.controller 0)))

module _ {D F : Type 0} (host : Host D F) (opener : Opener D F) where
  abbrev P : Type 0
  P = Program D F

  -- The job of the flags on a volume helper of its own; what the job returns is dropped.
  unfoldable pub run_job : Flags → P → Outcome × P
  unfolding new_volume_helper rebuild_sym_links clean_up_dangling_volumes
  run_job flags = call (do
    vh ←
        try (on_world (new_volume_helper host opener flags.settings.data_root flags.settings.dsn))
          (give (λ e. exited 1))
    ignore (
        on_world (λ w.
          if flags.rebuildsymlinks
          then rebuild_sym_links host vh w
          else clean_up_dangling_volumes host vh w))
    return (exited 0))

  -- The servers of the flags. With neither flag the process would end with the status 0.
  unfoldable pub run_driver : Flags → P → Outcome × P
  unfolding new_shared_host_path_driver controller_servers node_servers
  run_driver flags = call (do
    driver ← try (new_shared_host_path_driver host opener flags.settings) (give (λ e. exited 1))
    act (
        on_world (λ w.
          let (cs, at_controller) = controller_servers host driver w in
          let (ns, at_node) = node_servers host driver w in
          if flags.controller
          then (waits driver.endpoint cs, at_controller)
          else if flags.node
          then (waits driver.endpoint ns, at_node)
          else (exited 0, w))))

  -- `handle`
  unfoldable pub handle : Flags → P → Outcome × P
  unfolding run_job run_driver
  handle flags p =
      if not (flag_count flags == 1)
      then (exited 1, p)
      else if flags.rebuildsymlinks || flags.cleanupdangling
      then run_job flags p
      else run_driver flags p

  -- `main`
  unfoldable pub main : Flags → P → Outcome × P
  unfolding handle
  main flags p = if flags.show_version then (exited 0, p) else handle flags p
