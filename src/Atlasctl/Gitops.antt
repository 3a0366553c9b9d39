-- ===== src/Atlasctl/Gitops.antt =====
-- tools/atlasctl/pkg/gitops/gitops.go but for `ApplyGatewayListener`, whose effect on the content
-- of the gateway file is in Gateway. The file system is a parameter. `copyDir` calls itself for
-- each directory in the one it copies; the model counts how deep it may go.
pub mod Walk
pub mod Copy
pub mod Steps
pub mod Mirror
pub mod Sync
pub mod Infra
pub mod Shared
pub mod Listener
use atlas_idp.Common.{
  ℕ, zero, suc, Bool, true, false, ◌||◌, Option, none, some, List, [], ◌∷◌, ◌++◌, Bytes, codes, Act,
  ◌>>=◌, ◌>>◌, pure, if◌then◌else◌,
}
use atlas_idp.Text.{bytes_eq, has_suffix}
use atlas_idp.Atlasctl.Config.{GitopsConfig, parent, spelled}
use atlas_idp.Atlasctl.Kube.{fine, fault, wrapped}
use atlas_idp.Atlasctl.Disk.{FilePath, child, Entry, Disk}

pub record WorkloadRef : Type 0 where
  pub group : Bytes
  pub app : Bytes

-- The directories of the configuration, as paths.
pub record Places : Type 0 where
  pub scaffold_dir : FilePath
  pub workloads_dir : FilePath
  pub gateway_file : FilePath
  pub gateway_routes_dir : FilePath

pub record Paths : Type 0 where
  pub workload_dir : FilePath
  pub gitops_dir : FilePath
  pub gitops_file : FilePath
  pub gitops_resources : FilePath
  pub gateway_file : FilePath
  pub gateway_routes_dir : FilePath
  pub gateway_route_file : FilePath

unfoldable pub resolve_paths : WorkloadRef → Places → Paths
unfolding child
resolve_paths ref cfg =
    let group_dir = child cfg.workloads_dir ref.group in
    record {
      workload_dir = child (child cfg.scaffold_dir ref.group) ref.app;
      gitops_dir = group_dir;
      gitops_file = child group_dir (ref.app ++ codes ".yaml");
      gitops_resources = child (child group_dir ref.app) (codes "resources");
      gateway_file = cfg.gateway_file;
      gateway_routes_dir = cfg.gateway_routes_dir;
      gateway_route_file = child cfg.gateway_routes_dir (ref.app ++ codes ".yaml");
    }

-- How copying ends; `deeper` where the model's depth does not reach.
pub data Copied : Type 0 where
  done deeper : Copied
  failed : Bytes → Copied

abbrev pub copied : Option Bytes → Copied
copied none = done
copied (some e) = failed e

-- the names that `SyncResources` passes over
unfoldable pub is_private : Bytes → Bool
unfolding bytes_eq has_suffix
is_private name =
    bytes_eq name (codes "app.yaml")
    || (bytes_eq name (codes ".secret-seed")
        || (bytes_eq name (codes "vault") || has_suffix name (codes ".tmpl")))

module _ (d : Disk) where
  -- the body of the loops over the entries of a directory: the first that fails ends the loop
  unfoldable pub each : (Entry → Act d.World Copied) → List Entry → Act d.World Copied
  each f [] = pure done
  each f (e ∷ entries) = do
    ended ← f e
    elim ended [ done ↦ each f entries | failed why ↦ pure (failed why) | deeper ↦ pure deeper ]

  unfoldable pub copy_file : FilePath → FilePath → Act d.World (Option Bytes)
  copy_file src dst = do
    data_read ← d.read_file src
    elim data_read [ fault e ↦ pure (some e) | fine content ↦ d.write_file dst content ]

  -- the same, with the texts that say what failed
  unfoldable pub copy_named : FilePath → FilePath → Act d.World (Option Bytes)
  copy_named src dst = do
    data_read ← d.read_file src
    elim data_read [
      | fault e ↦ pure (some (wrapped (codes "read " ++ spelled src) e))
      | fine content ↦ do
        written ← d.write_file dst content
        elim written [
          | some e ↦ pure (some (wrapped (codes "write " ++ spelled dst) e))
          | none ↦ pure none
        ]
    ]

  unfoldable pub copy_workload_manifest : FilePath → FilePath → Act d.World (Option Bytes)
  copy_workload_manifest src dst = do
    made ← d.mkdir_all (parent dst)
    elim made [
      | some e ↦ pure (some (wrapped (codes "mkdir gitops dir") e))
      | none ↦ copy_named src dst
    ]

  -- one entry of the loop of `copyDir`, where `sub` copies a directory
  unfoldable pub copy_entry :
      (FilePath → FilePath → Act d.World Copied) → FilePath → FilePath → Entry → Act d.World Copied
  copy_entry sub src dst e =
      if e.is_dir
      then sub (child src e.name) (child dst e.name)
      else do ended ← copy_file (child src e.name) (child dst e.name); pure (copied ended)

  unfoldable pub copy_dir : ℕ → FilePath → FilePath → Act d.World Copied
  copy_dir zero src dst = pure deeper
  copy_dir (suc depth) src dst = do
    entries ← d.read_dir src
    elim entries [
      | fault e ↦ pure (failed e)
      | fine es ↦ do
        made ← d.mkdir_all dst
        elim made [
          | some e ↦ pure (failed e)
          | none ↦ each (copy_entry (copy_dir depth) src dst) es
        ]
    ]

  -- one entry of the loop of `syncInfraResources`
  unfoldable pub infra_entry : ℕ → FilePath → FilePath → Entry → Act d.World Copied
  infra_entry depth src dst e =
      if bytes_eq e.name (codes "gateway.yaml")
      then pure done
      else copy_entry (copy_dir depth) src dst e

  unfoldable pub sync_infra_resources : ℕ → FilePath → FilePath → Act d.World Copied
  sync_infra_resources depth src dst = do
    made ← d.mkdir_all dst
    elim made [
      | some e ↦ pure (failed e)
      | none ↦ do
        entries ← d.read_dir src
        elim entries [ fault e ↦ pure (failed e) | fine es ↦ each (infra_entry depth src dst) es ]
    ]

  -- one entry of the loop of `SyncResources`
  unfoldable pub sync_entry : ℕ → FilePath → FilePath → Entry → Act d.World Copied
  sync_entry depth src dst e =
      if is_private e.name
      then pure done
      else if e.is_dir
      then (if bytes_eq e.name (codes "infra")
          then sync_infra_resources depth (child src e.name) (child dst e.name)
          else copy_dir depth (child src e.name) (child dst e.name))
      else do ended ← copy_named (child src e.name) (child dst e.name); pure (copied ended)

  unfoldable pub sync_resources : ℕ → FilePath → FilePath → Act d.World Copied
  sync_resources depth workload_dir resources_dir = do
    made ← d.mkdir_all resources_dir
    elim made [
      | some e ↦ pure (failed (wrapped (codes "mkdir resources") e))
      | none ↦ do
        entries ← d.read_dir workload_dir
        elim entries [
          | fault e ↦ pure (failed (wrapped (codes "read workload dir " ++ spelled workload_dir) e))
          | fine es ↦ each (sync_entry depth workload_dir resources_dir) es
        ]
    ]

  unfoldable pub remove_paths : List FilePath → Act d.World (Option Bytes)
  remove_paths [] = pure none
  remove_paths (p ∷ paths) = do
    failure ← d.remove_all p
    elim failure [
      | some e ↦ pure (some (wrapped (codes "remove " ++ spelled p) e))
      | none ↦ remove_paths paths
    ]

  unfoldable pub remove_empty_dir : FilePath → Act d.World (Unit {0})
  remove_empty_dir dir = do
    entries ← d.read_dir dir
    elim entries [ fault _ ↦ pure tt | fine [] ↦ do d.remove dir; pure tt | fine (_ ∷ _) ↦ pure tt ]
