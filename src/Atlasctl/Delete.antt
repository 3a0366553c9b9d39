-- ===== src/Atlasctl/Delete.antt =====
-- The command of tools/atlasctl/cmd/delete.go. What is printed is left out; the file system is a
-- parameter.
pub mod Guard
use atlas_idp.Common.{
  Bool, true, false, not, ◌&&◌, ◌||◌, Option, none, some, List, [], ◌∷◌, ◌++◌, Bytes, codes, Act,
  ◌>>=◌, ◌>>◌, pure, if◌then◌else◌,
}
use atlas_idp.Atlasctl.Config.{parent, spelled}
use atlas_idp.Atlasctl.Kube.{fine, fault, wrapped}
use atlas_idp.Atlasctl.Disk.{FilePath, child, found, not_exist, unknown, Disk}
use atlas_idp.Atlasctl.Seed.Command.{agrees, parse_workload_arg}

pub record DeleteFlags : Type 0 where
  pub dry_run : Bool
  pub skip_confirm : Bool
  pub answer : Bytes

module _ (d : Disk) where
  -- the directory of the group is removed if it is empty
  unfoldable pub remove_empty : FilePath → Act d.World (Option Bytes)
  remove_empty dir = do
    entries ← d.read_dir dir
    elim entries [
      | fault _ ↦ pure none
      | fine [] ↦ do d.remove dir; pure none
      | fine (_ ∷ _) ↦ pure none
    ]

  -- the command from the removal on
  unfoldable pub delete_now : FilePath → Act d.World (Option Bytes)
  delete_now dir = do
    failure ← d.remove_all dir
    elim failure [
      | some e ↦ pure (some (wrapped (codes "remove workload dir") e))
      | none ↦ remove_empty (parent dir)
    ]

  unfoldable pub delete_confirmed : DeleteFlags → FilePath → Act d.World (Option Bytes)
  unfolding agrees
  delete_confirmed flags dir =
      if flags.dry_run
      then pure none
      else if flags.skip_confirm || agrees flags.answer
      then delete_now dir
      else pure (some (codes "aborted"))

  unfoldable pub delete_workload :
      DeleteFlags → FilePath → FilePath → Bytes → Bytes → Act d.World (Option Bytes)
  unfolding child spelled
  delete_workload flags scaffold_dir workloads_dir group app =
      let dir = child (child scaffold_dir group) app in
      do
        there ← d.stat dir
        elim there [
          | not_exist ↦ pure (some (codes "workload not found: " ++ spelled dir))
          | _ ↦ do
            enabled ← d.stat (child (child workloads_dir group) (app ++ codes ".yaml"))
            elim enabled [
              | found ↦ pure (
                  some (
                    codes "workload "
                    ++ (group
                        ++ (codes "/"
                            ++ (app
                                ++ (codes " is still enabled. Run 'atlasctl disable "
                                    ++ (group ++ (codes "/" ++ (app ++ codes "' first")))))))))
              | _ ↦ delete_confirmed flags dir
            ]
        ]

  unfoldable pub delete_command :
      DeleteFlags → FilePath → FilePath → Bytes → Act d.World (Option Bytes)
  unfolding parse_workload_arg
  delete_command flags scaffold_dir workloads_dir arg = elim (parse_workload_arg arg) [
    | none ↦ pure (some (codes "invalid format: use GROUP/APP"))
    | some (group, app) ↦ delete_workload flags scaffold_dir workloads_dir group app
  ]
