-- ===== src/Tests/Deletion.antt =====
-- The theorems on `atlasctl delete`, on the disk in memory.
use atlas_idp.Common.{◌≡◌, ◌≢◌, refl, true, false, none, [], ◌∷◌, codes}
use atlas_idp.Text.{bytes_eq, split_2}
use atlas_idp.Atlasctl.Disk.{FilePath, child}
use atlas_idp.Atlasctl.Seed.Command.{parse_workload_arg}
use atlas_idp.Atlasctl.Delete.{
  DeleteFlags, delete_workload, delete_command, delete_confirmed, delete_now, remove_empty,
}
use atlas_idp.Atlasctl.Delete.Guard.{delete-enabled, delete-removes, delete-escapes}
use atlas_idp.Tests.Files.{
  disk, tree, path_eq, is_under, is_name, cut, listing, remove_file, remove_tree,
}
use atlas_idp.Tests.Files.Behaviour.{disk-Laws, disk-IsSeen, is_plain-IsPlain, outside_of}
use atlas_idp.Tests.Workloads.{workload_dir, shop, gateway_file}
use atlas_idp.Tests.Lifecycle.{team, demo, live}

abbrev flags : DeleteFlags
flags = record { dry_run = false; skip_confirm = true; answer = [] }

abbrev scaffold_dir : FilePath
scaffold_dir = codes "workloads" ∷ []

abbrev gitops_dir : FilePath
gitops_dir = codes "gitops" ∷ []

live-manifest : tree live (codes "demo.yaml" ∷ team ∷ gitops_dir) ≢ none
unfolding tree path_eq is_name
live-manifest h = cc

delete-enabled_example :
    ((delete_workload disk flags scaffold_dir gitops_dir team demo live).0 ≢ none)
    × (tree (delete_workload disk flags scaffold_dir gitops_dir team demo live).1 ≡ tree live)
unfolding disk-Laws child
delete-enabled_example =
    delete-enabled disk disk-Laws flags scaffold_dir gitops_dir team demo live live-manifest
      (disk-IsSeen (codes "demo.yaml" ∷ team ∷ gitops_dir))

delete-removes_example :
    (tree
        (delete_command disk flags scaffold_dir gitops_dir (codes "team/demo") shop).1
        (codes "app.yaml" ∷ workload_dir)
      ≡ none)
    × (tree
          (delete_command disk flags scaffold_dir gitops_dir (codes "team/demo") shop).1
          gateway_file
        ≡ tree shop gateway_file)
unfolding disk-Laws child delete_command delete_workload delete_confirmed delete_now remove_empty
    parse_workload_arg split_2 bytes_eq tree path_eq is_under is_name cut listing remove_file
    remove_tree
delete-removes_example =
    delete-removes disk disk-Laws flags scaffold_dir gitops_dir (codes "team/demo") team demo shop
      (codes "app.yaml" ∷ workload_dir) gateway_file refl refl refl (codes "app.yaml" ∷ [], refl)
      (outside_of workload_dir gateway_file refl) (λ same. cc)

delete-escapes_example :
    tree (delete_command disk flags scaffold_dir gitops_dir (codes "team/..") shop).1 workload_dir
    ≡ none
unfolding disk-Laws child delete_command delete_workload delete_confirmed delete_now remove_empty
    parse_workload_arg split_2 bytes_eq tree path_eq is_under is_name cut listing remove_file
    remove_tree
delete-escapes_example =
    delete-escapes disk disk-Laws flags scaffold_dir gitops_dir (codes "team/..") team shop
      workload_dir refl (is_plain-IsPlain team refl) refl refl (demo ∷ team ∷ [], refl)
