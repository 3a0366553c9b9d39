-- ===== src/Atlasctl/Disable.antt =====
-- The command of tools/atlasctl/cmd/disable.go. What is printed is left out; the files and git are
-- parameters, and git acts on the world of the files.
pub mod Effect
pub mod Undo
pub mod Whole
use atlas_idp.Common.{
  Bool, true, false, ◌||◌, Option, none, some, List, [], ◌∷◌, ◌++◌, Bytes, codes, Act, ◌>>=◌, ◌>>◌,
  pure, if◌then◌else◌,
}
use atlas_idp.Atlasctl.Config.{parent, spelled}
use atlas_idp.Atlasctl.Gateway.{GatewayListenerChange}
use atlas_idp.Atlasctl.Kube.{Ran, fine, fault, wrapped}
use atlas_idp.Atlasctl.Disk.{FilePath, Disk}
use atlas_idp.Atlasctl.Seed.Command.{agrees, parse_workload_arg}
use atlas_idp.Atlasctl.Gitops.{
  WorkloadRef, Places, Paths, resolve_paths, remove_paths, remove_empty_dir,
}
use atlas_idp.Atlasctl.Gitops.Listener.{apply_listener}
use atlas_idp.Atlasctl.Enable.{is_found, is_missing, push_if}

pub record DisableFlags : Type 0 where
  pub dry_run : Bool
  pub sync : Bool
  pub push : Bool
  pub skip_confirm : Bool
  pub answer : Bytes

abbrev pub old_listener : Bytes → GatewayListenerChange
old_listener app = record {
  app = app;
  hostname = app ++ codes ".atlas";
  cert_name = [];
  add = false;
}

module _ (d : Disk) where
  -- the resources, whose removal may fail, and the directory of the application if it is empty
  unfoldable pub remove_resources : Paths → Act d.World (Unit {0})
  remove_resources p = do
    remove_paths d (p.gitops_resources ∷ [])
    d.stat p.gitops_resources
    remove_empty_dir d (parent p.gitops_resources)

  unfoldable pub remove_route : Bool → Paths → Act d.World (Option Bytes)
  remove_route false p = pure none
  remove_route true p = do
    failure ← d.remove p.gateway_route_file
    elim failure [
      | some e ↦ pure (some (wrapped (codes "remove gateway route") e))
      | none ↦ pure none
    ]

  -- all that is removed from the repository
  unfoldable pub disable_files : Bytes → Bool → Paths → Act d.World (Option Bytes)
  disable_files app has_gateway p = do
    applied ← apply_listener d p.gateway_file (old_listener app)
    elim applied [
      | fault e ↦ pure (some (wrapped (codes "remove gateway listener") e))
      | fine _ ↦ do
        failure ← d.remove p.gitops_file
        elim failure [
          | some e ↦ pure (some (wrapped (codes "remove gitops file") e))
          | none ↦ do
            remove_resources p
            route ← remove_route has_gateway p
            elim route [
              | some e ↦ pure (some e)
              | none ↦ do remove_empty_dir d p.gitops_dir; pure none
            ]
        ]
    ]

  module _ (git : List Bytes → Act d.World Ran) where
    unfoldable pub commit_removal : Bytes → Bytes → Bool → Paths → Bool → Act d.World (Option Bytes)
    commit_removal group app has_gateway p push = do
      git (
          (codes "add"
            ∷ codes "-A"
            ∷ codes "--"
            ∷ spelled p.gitops_dir
            ∷ spelled p.gateway_file
            ∷ [])
          ++ (if has_gateway then spelled p.gateway_route_file ∷ [] else []))
      git (
          codes "commit"
          ∷ codes "-m"
          ∷ (codes "disable(workloads): remove " ++ (group ++ (codes "/" ++ app)))
          ∷ [])
      push_if d git push

    unfoldable pub disable_now :
        DisableFlags → Bytes → Bytes → Bool → Paths → Act d.World (Option Bytes)
    disable_now flags group app has_gateway p = do
      failure ← disable_files app has_gateway p
      elim failure [
        | some e ↦ pure (some e)
        | none ↦ if flags.sync then commit_removal group app has_gateway p flags.push else pure none
      ]

    unfoldable pub disable_workload :
        DisableFlags → Places → Bytes → Bytes → Act d.World (Option Bytes)
    disable_workload flags places group app =
        let p = resolve_paths (record { group = group; app = app }) places in
        do
          enabled ← d.stat p.gitops_file
          if is_missing enabled
              then pure (
                  some (
                    codes "not enabled "
                    ++ (226 ∷ 128 ∷ 148 ∷ 32 ∷ spelled p.gitops_file ++ codes " does not exist")))
              else do
                route ← d.stat p.gateway_route_file
                if flags.dry_run
                    then (do d.stat p.gitops_resources; pure none)
                    else if flags.skip_confirm || agrees flags.answer
                    then disable_now flags group app (is_found route) p
                    else pure (some (codes "aborted"))

    unfoldable pub disable_command : DisableFlags → Places → Bytes → Act d.World (Option Bytes)
    disable_command flags places arg = elim (parse_workload_arg arg) [
      | none ↦ pure (some (codes "invalid format: use GROUP/APP"))
      | some (group, app) ↦ disable_workload flags places group app
    ]
