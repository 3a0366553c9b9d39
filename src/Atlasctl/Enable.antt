-- ===== src/Atlasctl/Enable.antt =====
-- The command of tools/atlasctl/cmd/enable.go. What is printed is left out. The files, git and the
-- cluster are parameters: git acts on the world of the files, and the cluster, with its own
-- reading of the workload's secrets, has a world beside it.
pub mod Guard
pub mod Files
pub mod Publish
use atlas_idp.Common.{
  ℕ, Bool, true, false, ◌||◌, Option, none, some, List, [], ◌∷◌, ◌++◌, Bytes, codes, Act, ◌>>=◌,
  ◌>>◌, pure, if◌then◌else◌,
}
use atlas_idp.Atlasctl.Config.{spelled}
use atlas_idp.Atlasctl.Gateway.{GatewayListenerChange, Applied}
use atlas_idp.Atlasctl.Kube.{Machine, Ran, printed, broke, Outcome, fine, fault, wrapped}
use atlas_idp.Atlasctl.Disk.{FilePath, child, Stat, found, not_exist, unknown, Disk}
use atlas_idp.Atlasctl.Seed.{Params, load_params, validate_params}
use atlas_idp.Atlasctl.Seed.Database.{provision_db}
use atlas_idp.Atlasctl.Seed.Storage.{provision_s3}
use atlas_idp.Atlasctl.Seed.Secrets.{write_vault}
use atlas_idp.Atlasctl.Seed.Command.{agrees, parse_workload_arg}
use atlas_idp.Atlasctl.Gitops.{
  WorkloadRef, Places, Paths, resolve_paths, Copied, done, deeper, failed, copied,
  copy_workload_manifest, sync_resources,
}
use atlas_idp.Atlasctl.Gitops.Listener.{apply_listener}

-- the flags, and the answers to the two questions
pub record EnableFlags : Type 0 where
  pub dry_run : Bool
  pub sync : Bool
  pub push : Bool
  pub force : Bool
  pub skip_confirm : Bool
  pub seed : Bool
  pub answer : Bytes
  pub seed_answer : Bytes

abbrev pub is_found : Stat → Bool
is_found found = true
is_found _ = false

abbrev pub is_missing : Stat → Bool
is_missing not_exist = true
is_missing _ = false

abbrev pub new_listener : Bytes → GatewayListenerChange
new_listener app = record {
  app = app;
  hostname = app ++ codes ".atlas";
  cert_name = app ++ codes "-cert";
  add = true;
}

module _ (d : Disk) where
  -- the tests that --force leaves out: the error, if one of them fails
  unfoldable pub refusal : Paths → Act d.World (Option Bytes)
  refusal p = do
    dir ← d.stat p.workload_dir
    if is_missing dir
        then pure (some (codes "workload not found: " ++ spelled p.workload_dir))
        else do
          manifest ← d.stat (child p.workload_dir (codes "app.yaml"))
          if is_missing manifest
              then pure (some (codes "app.yaml not found in " ++ spelled p.workload_dir))
              else do
                enabled ← d.stat p.gitops_file
                if is_found enabled
                    then pure (
                        some (
                          codes "already enabled at "
                          ++ (spelled p.gitops_file ++ codes " (use --force to overwrite)")))
                    else pure none

  abbrev pub gateway_yaml : Paths → FilePath
  gateway_yaml p = child (child p.workload_dir (codes "infra")) (codes "gateway.yaml")

  -- the route and the listener of a workload that has a gateway
  unfoldable pub enable_gateway : Bytes → Paths → Act d.World Copied
  enable_gateway app p = do
    made ← d.mkdir_all p.gateway_routes_dir
    elim made [
      | some e ↦ pure (failed (wrapped (codes "mkdir gateway-routes dir") e))
      | none ↦ do
        route ← copy_workload_manifest d (gateway_yaml p) p.gateway_route_file
        elim route [
          | some e ↦ pure (failed e)
          | none ↦ do
            applied ← apply_listener d p.gateway_file (new_listener app)
            elim applied [
              | fault e ↦ pure (failed (wrapped (codes "add gateway listener") e))
              | fine _ ↦ pure done
            ]
        ]
    ]

  unfoldable pub enable_resources : ℕ → Bytes → Bool → Paths → Act d.World Copied
  enable_resources depth app has_gateway p = do
    synced ← sync_resources d depth p.workload_dir p.gitops_resources
    elim synced [
      | failed e ↦ pure (failed (wrapped (codes "sync resources") e))
      | deeper ↦ pure deeper
      | done ↦ if has_gateway then enable_gateway app p else pure done
    ]

  -- all that is written to the repository
  unfoldable pub enable_files : ℕ → Bytes → Bool → Paths → Act d.World Copied
  enable_files depth app has_gateway p = do
    made ← d.mkdir_all p.gitops_dir
    elim made [
      | some e ↦ pure (failed (wrapped (codes "mkdir gitops dir") e))
      | none ↦ do
        manifest ← copy_workload_manifest d (child p.workload_dir (codes "app.yaml")) p.gitops_file
        elim manifest [ some e ↦ pure (failed e) | none ↦ enable_resources depth app has_gateway p ]
    ]

  module _ (git : List Bytes → Act d.World Ran) where
    -- the push that the flag asks for
    unfoldable pub push_if : Bool → Act d.World (Option Bytes)
    push_if false = pure none
    push_if true = do
      pushed ← git (codes "push" ∷ [])
      elim pushed [
        | printed _ ↦ pure none
        | broke out e ↦ pure (some (codes "git push: " ++ wrapped out e))
      ]

    unfoldable pub git_commit_and_maybe_push :
        Bytes → Bytes → Paths → Bool → Act d.World (Option Bytes)
    git_commit_and_maybe_push app group p push = do
      route ← d.stat p.gateway_route_file
      staged ← git (
          (codes "add" ∷ spelled p.gitops_file ∷ spelled p.gitops_resources ∷ [])
          ++ ((if is_found route
                then spelled p.gateway_file ∷ spelled p.gateway_route_file ∷ []
                else [])
              ++ codes "-A" ∷ []))
      elim staged [
        | broke out e ↦ pure (some (codes "git add: " ++ wrapped out e))
        | printed _ ↦ do
          git (
              codes "commit"
              ∷ codes "-m"
              ∷ (codes "enable(workloads): promote " ++ (group ++ (codes "/" ++ app)))
              ∷ [])
          push_if push
      ]

-- `runSeed`: `dir` is the workload's directory
module _ (m : Machine) where
  -- the three steps, whose errors are passed on as they are
  unfoldable pub provision_all : Params → Act m.World (Option Bytes)
  provision_all params = do
    e ← provision_db m params
    elim e [
      | some why ↦ pure (some why)
      | none ↦ do
        e' ← provision_s3 m params
        elim e' [ some why ↦ pure (some why) | none ↦ write_vault m params ]
    ]

  pub run_seed : Bytes → Bytes → Bytes → EnableFlags → Act m.World (Option Bytes)
  run_seed group app dir flags = do
    loaded ← load_params m (record { group = group; app = app; dir = dir })
    elim loaded [
      | fault e ↦ pure (some e)
      | fine params ↦
          let refused = if flags.force then none else validate_params params in
          elim refused [
            | some e ↦ pure (some e)
            | none ↦
                if flags.dry_run
                then pure none
                else if flags.skip_confirm || agrees flags.seed_answer
                then provision_all params
                else pure (some (codes "aborted"))
          ]
    ]

module _ (d : Disk) (git : List Bytes → Act d.World Ran) (m : Machine) where
  abbrev pub on_disk : {A : Type 0} → Act d.World A → Act (d.World × m.World) A
  on_disk act (w, v) = let (a, w') = act w in (a, (w', v))

  abbrev on_machine : {A : Type 0} → Act m.World A → Act (d.World × m.World) A
  on_machine act (w, v) = let (a, v') = act v in (a, (w, v'))

  -- what follows when the files are written
  unfoldable pub enable_rest : EnableFlags → Bytes → Bytes → Paths → Act (d.World × m.World) Copied
  enable_rest flags group app p = do
    seeded ←
        if flags.seed
        then on_machine (run_seed m group app (spelled p.workload_dir) flags)
        else pure none
    elim seeded [
      | some e ↦ pure (failed (wrapped (codes "seed") e))
      | none ↦
          if flags.sync
          then (do
            pushed ← on_disk (git_commit_and_maybe_push d git app group p flags.push)
            pure (copied pushed))
          else pure done
    ]

  -- behind the question
  unfoldable pub enable_now :
      ℕ → EnableFlags → Bytes → Bytes → Bool → Paths → Act (d.World × m.World) Copied
  enable_now depth flags group app has_gateway p = do
    written ← on_disk (enable_files d depth app has_gateway p)
    elim written [
      | failed e ↦ pure (failed e)
      | deeper ↦ pure deeper
      | done ↦ enable_rest flags group app p
    ]

  -- behind the tests
  unfoldable pub enable_asked :
      ℕ → EnableFlags → Bytes → Bytes → Paths → Act (d.World × m.World) Copied
  enable_asked depth flags group app p = do
    gateway ← on_disk (d.stat (gateway_yaml d p))
    if flags.dry_run
        then pure done
        else if flags.skip_confirm || agrees flags.answer
        then enable_now depth flags group app (is_found gateway) p
        else pure (failed (codes "aborted"))

  unfoldable pub enable_workload :
      ℕ → EnableFlags → Places → Bytes → Bytes → Act (d.World × m.World) Copied
  enable_workload depth flags places group app =
      let p = resolve_paths (record { group = group; app = app }) places in
      do
        refused ← if flags.force then pure none else on_disk (refusal d p)
        elim refused [ some e ↦ pure (failed e) | none ↦ enable_asked depth flags group app p ]

  unfoldable pub enable_command : ℕ → EnableFlags → Places → Bytes → Act (d.World × m.World) Copied
  enable_command depth flags places arg = elim (parse_workload_arg arg) [
    | none ↦ pure (failed (codes "invalid format: use GROUP/APP"))
    | some (group, app) ↦ enable_workload depth flags places group app
  ]
