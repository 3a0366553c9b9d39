-- ===== src/Tests/Lifecycle.antt =====
-- The theorems on the commands enable, disable and delete, on the disk in memory.
use atlas_idp.Common.{
  ◌≡◌, ◌≢◌, refl, ap, ◌∙◌, inl, inr, true, false, none, some, List, [], ◌∷◌, Bytes, codes, Act,
}
use atlas_idp.Text.{bytes_eq, contains}
use atlas_idp.Atlasctl.Kube.{Machine, Ran, printed, missing, fine}
use atlas_idp.Atlasctl.Disk.{child}
use atlas_idp.Atlasctl.Disk.Laws.{Tree, file, folder}
use atlas_idp.Atlasctl.Gitops.{
  Places, Paths, resolve_paths, done, copy_workload_manifest, sync_resources, sync_entry,
  sync_infra_resources, infra_entry, copy_named, copy_dir, each, copy_entry, copy_file, is_private,
}
use atlas_idp.Atlasctl.Gitops.Shared.{is_route}
use atlas_idp.Atlasctl.Gitops.Listener.{
  apply_listener, add_listener, has_listener_in_file, append_listener_to_file,
}
use atlas_idp.Atlasctl.Gateway.{has_listener, marker}
use atlas_idp.Atlasctl.Enable.{
  EnableFlags, enable_workload, enable_asked, enable_now, enable_rest, enable_files,
  enable_resources, enable_gateway, refusal, git_commit_and_maybe_push, push_if,
}
use atlas_idp.Atlasctl.Enable.Guard.{enabled, enable-refuses}
use atlas_idp.Atlasctl.Enable.Files.{IsLaidOut}
use atlas_idp.Atlasctl.Enable.Publish.{enable-publishes}
use atlas_idp.Atlasctl.Gitops.{remove_paths, remove_empty_dir}
use atlas_idp.Atlasctl.Gitops.Listener.{drop_listener, remove_listener_from_file}
use atlas_idp.Atlasctl.Gateway.{remove_listener, kept_lines, start_index}
use atlas_idp.Text.{split, trim_right}
use atlas_idp.Atlasctl.Disable.{
  DisableFlags, disable_workload, disable_now, disable_files, commit_removal, remove_resources,
  remove_route,
}
use atlas_idp.Atlasctl.Disable.Effect.{IsCleared}
use atlas_idp.Atlasctl.Disable.Whole.{IsUndone, disable-undoes, disable-keeps}
use atlas_idp.Atlasctl.Status.{list_workloads}
use atlas_idp.Atlasctl.Status.Complete.{Shows}
use atlas_idp.Atlasctl.Status.Whole.{list-Shows}
use atlas_idp.Tests.Files.{
  disk, tree, path_eq, is_under, is_name, put, cut, make_all, write, read, listing, remove_file,
  remove_tree,
}
use atlas_idp.Tests.Files.Behaviour.{
  disk-readable, disk-IsSeen, is_plain-IsPlain, disk-Laws, outside_of, Apart-of,
}
use atlas_idp.Tests.Workloads.{
  put_all, workload_dir, group_dir, shop, resources, gateway_file, listeners,
}

-- a cluster that answers nothing
abbrev machine : Machine
machine = record {
  World = Unit {0};
  kubectl = λ args u. (printed [], u);
  base64_d = λ text u. (printed text, u);
  stat = λ path u. (none, u);
  absent = λ path u. (false, u);
  open_file = λ path u. (missing (codes "no such file"), u);
  base64_decode_string = λ text. fine text;
  ranged = λ entries. entries;
}

abbrev git : List Bytes → Act Tree Ran
git args w = (printed [], w)

abbrev places : Places
places = record {
  scaffold_dir = codes "workloads" ∷ [];
  workloads_dir = codes "gitops" ∷ [];
  gateway_file = gateway_file;
  gateway_routes_dir = codes "routes" ∷ [];
}

abbrev pub team : Bytes
team = codes "team"

abbrev pub demo : Bytes
demo = codes "demo"

abbrev paths : Paths
paths = resolve_paths (record { group = team; app = demo }) places

abbrev commits : EnableFlags
commits = record {
  dry_run = false;
  sync = true;
  push = true;
  force = false;
  skip_confirm = true;
  seed = false;
  answer = [];
  seed_answer = [];
}

paths-IsLaidOut : IsLaidOut paths
unfolding resolve_paths child is_under path_eq
paths-IsLaidOut = record {
  group_apart = Apart-of workload_dir group_dir refl refl;
  manifest_in = (codes "demo.yaml" ∷ [], refl);
  manifest_below = refl;
  resources_in = (codes "resources" ∷ codes "demo" ∷ [], refl);
  manifest_apart = Apart-of (codes "demo.yaml" ∷ group_dir) resources refl refl;
  manifest_listener = λ h. cc;
  manifest_route = λ h. cc;
  resources_listener = outside_of resources gateway_file refl;
  resources_route = outside_of resources (codes "demo.yaml" ∷ codes "routes" ∷ []) refl;
}

enable-publishes_example :
    (tree
        (enable_workload disk git machine 2 commits places team demo (shop, tt)).1.0
        (codes "demo.yaml" ∷ group_dir)
      ≡ some (file (codes "kind")))
    × (tree
          (enable_workload disk git machine 2 commits places team demo (shop, tt)).1.0
          (codes "config.yaml" ∷ codes "infra" ∷ resources)
        ≡ some (file (codes "kind")))
unfolding disk-Laws enable_workload enable_asked enable_now enable_rest enable_files
    enable_resources enable_gateway refusal git_commit_and_maybe_push push_if copy_workload_manifest
    sync_resources sync_entry sync_infra_resources infra_entry copy_named copy_dir each copy_entry
    copy_file is_private listing tree path_eq is_under is_name put make_all write read child
    resolve_paths apply_listener add_listener has_listener_in_file append_listener_to_file
    has_listener contains marker is_route
enable-publishes_example =
    enable-publishes disk disk-Laws git (λ args w. refl) machine commits 2 places team demo
      (codes "infra") (codes "config.yaml" ∷ []) (codes "kind") (codes "kind") shop tt refl
      paths-IsLaidOut refl refl refl refl refl

-- the same workload, enabled
abbrev pub live : Tree
live = put_all (
    (codes "workloads" ∷ [], folder)
    ∷ (team ∷ codes "workloads" ∷ [], folder)
    ∷ (workload_dir, folder)
    ∷ (codes "app.yaml" ∷ workload_dir, file (codes "kind"))
    ∷ (codes "gitops" ∷ [], folder)
    ∷ (group_dir, folder)
    ∷ (codes "demo.yaml" ∷ group_dir, file (codes "kind"))
    ∷ (demo ∷ group_dir, folder)
    ∷ (resources, folder)
    ∷ (codes "config.yaml" ∷ resources, file (codes "kind"))
    ∷ (codes "routes" ∷ [], folder)
    ∷ (codes "demo.yaml" ∷ codes "routes" ∷ [], file (codes "kind"))
    ∷ (gateway_file, file listeners)
    ∷ [])

live-manifest : tree live paths.gitops_file ≢ none
unfolding tree path_eq is_name resolve_paths child
live-manifest h = cc

enable-refuses_example :
    ((enabled disk disk-Laws git machine 2 commits places team demo live tt).0 ≢ done)
    × (tree (enabled disk disk-Laws git machine 2 commits places team demo live tt).1.0 ≡ tree live)
    × ((enabled disk disk-Laws git machine 2 commits places team demo live tt).1.1 ≡ tt)
unfolding disk-Laws
enable-refuses_example =
    enable-refuses disk disk-Laws git machine 2 commits places team demo live tt refl live-manifest
      (disk-IsSeen paths.gitops_file)

abbrev withdraws : DisableFlags
withdraws = record { dry_run = false; sync = true; push = false; skip_confirm = true; answer = [] }

gateway-stays : ¬ IsCleared paths gateway_file
unfolding resolve_paths child is_under path_eq
gateway-stays (inl same) = cc
gateway-stays (inr (inl under)) = outside_of resources gateway_file refl under
gateway-stays (inr (inr (inl same))) = cc
gateway-stays (inr (inr (inr (inl same)))) = cc
gateway-stays (inr (inr (inr (inr same)))) = cc

reads-listeners : (u : Tree) → tree u ≡ tree live → read gateway_file u ≡ fine listeners
unfolding read path_eq is_name
reads-listeners u same =
    let here : tree u gateway_file ≡ some (file listeners) =
      ap (λ (t : Tree). t gateway_file) same ∙ unfold tree in refl in
    rw (read, here) refl

disable-undoes_example :
    IsUndone paths demo listeners
      (tree (disable_workload disk git withdraws places team demo live).1)
unfolding disk-Laws disable_workload disable_now disable_files commit_removal remove_resources
    remove_route remove_paths remove_empty_dir push_if listing remove_file remove_tree cut tree
    path_eq is_under is_name write read child resolve_paths apply_listener drop_listener
    remove_listener_from_file remove_listener split kept_lines start_index trim_right marker
    bytes_eq
disable-undoes_example =
    disable-undoes disk disk-Laws git (λ args w. refl) withdraws team demo places live listeners
      refl gateway-stays (disk-IsSeen paths.gateway_route_file) reads-listeners refl

workload-stays : ¬ IsCleared paths workload_dir
unfolding resolve_paths child is_under path_eq
workload-stays (inl same) = cc
workload-stays (inr (inl under)) = outside_of resources workload_dir refl under
workload-stays (inr (inr (inl same))) = cc
workload-stays (inr (inr (inr (inl same)))) = cc
workload-stays (inr (inr (inr (inr same)))) = cc

disable-keeps_example :
    tree (disable_workload disk git withdraws places team demo live).1 workload_dir
    ≡ tree live workload_dir
unfolding disk-Laws resolve_paths
disable-keeps_example =
    disable-keeps disk disk-Laws git (λ args w. refl) withdraws team demo places live workload_dir
      workload-stays (λ same. cc)

live-app : tree live (codes "app.yaml" ∷ workload_dir) ≢ none
unfolding tree path_eq is_name
live-app h = cc

list-Shows_example : Shows (codes "team/demo") (list_workloads disk places live).0
unfolding disk-Laws child resolve_paths
list-Shows_example =
    list-Shows disk disk-Laws places disk-readable team demo (is_plain-IsPlain team refl)
      (is_plain-IsPlain demo refl) (disk-IsSeen paths.gitops_file) live live-app live-manifest
