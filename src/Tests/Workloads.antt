-- ===== src/Tests/Workloads.antt =====
-- The theorems on copying, enabling, disabling and deleting workloads, on the disk in memory.
use atlas_idp.Common.{◌≡◌, ◌≢◌, refl, inl, none, some, List, [], ◌∷◌, Bytes, codes, if◌then◌else◌}
use atlas_idp.Atlasctl.Disk.{FilePath, child}
use atlas_idp.Atlasctl.Disk.Paths.{Apart}
use atlas_idp.Atlasctl.Disk.Laws.{Tree, Node, file, folder}
use atlas_idp.Atlasctl.Gitops.{copy_dir, sync_resources, deeper, each, copy_entry, copy_file}
use atlas_idp.Atlasctl.Gitops.Copy.{Within, copy_dir-enough}
use atlas_idp.Atlasctl.Gitops.{
  sync_entry, sync_infra_resources, infra_entry, copy_named, is_private,
}
use atlas_idp.Atlasctl.Gitops.Sync.{sync_resources-leaves}
use atlas_idp.Atlasctl.Gitops.Shared.{is_route, sync_resources-copies}
use atlas_idp.Atlasctl.Gitops.Listener.{
  apply_listener, add_listener, has_listener_in_file, append_listener_to_file,
}
use atlas_idp.Atlasctl.Gitops.Listener.Refine.{apply_listener-refines}
use atlas_idp.Atlasctl.Gateway.{apply_gateway_listener, added, has_listener, marker}
use atlas_idp.Text.{contains}
use atlas_idp.Atlasctl.Enable.{new_listener}
use atlas_idp.Tests.Files.{
  disk, tree, path_eq, is_under, is_name, put, make_all, write, read, listing,
}
use atlas_idp.Tests.Files.Behaviour.{disk-Laws, Apart-of, flat_of}

-- /workloads/team/demo with a manifest, secrets and a configuration in a directory of its own
abbrev pub workload_dir : FilePath
workload_dir = codes "demo" ∷ codes "team" ∷ codes "workloads" ∷ []

abbrev pub group_dir : FilePath
group_dir = codes "team" ∷ codes "gitops" ∷ []

abbrev pub put_all : List (FilePath × Node) → Tree
put_all [] p = none
put_all ((q, n) ∷ rest) p = if path_eq q p then some n else put_all rest p

abbrev pub text : Bytes
text = codes "kind"

abbrev pub shop : Tree
shop = put_all (
    (codes "workloads" ∷ [], folder)
    ∷ (codes "team" ∷ codes "workloads" ∷ [], folder)
    ∷ (workload_dir, folder)
    ∷ (codes "app.yaml" ∷ workload_dir, file text)
    ∷ (codes ".secret-seed" ∷ workload_dir, file (codes "SECRET"))
    ∷ (codes "infra" ∷ workload_dir, folder)
    ∷ (codes "gateway.yaml" ∷ codes "infra" ∷ workload_dir, file text)
    ∷ (codes "config.yaml" ∷ codes "infra" ∷ workload_dir, file text)
    ∷ (codes "gitops" ∷ [], folder)
    ∷ (codes "gateway.yaml" ∷ [], file (codes "listeners:\n"))
    ∷ [])

abbrev infra : FilePath
infra = codes "infra" ∷ workload_dir

abbrev target : FilePath
target = codes "infra" ∷ codes "gitops" ∷ []

infra-Apart : Apart infra target
unfolding is_under path_eq
infra-Apart = Apart-of infra target refl refl

-- the infra directory has no directories
infra-flat : (name : Bytes) → tree shop (name ∷ infra) ≢ some folder
unfolding tree path_eq is_name
infra-flat = flat_of shop infra (
  refl,
  (refl, (refl, (refl, (refl, (refl, (refl, (refl, (refl, (refl, (refl, (refl, tt))))))))))),
)

infra-Within : Within (tree shop) 2 infra
infra-Within = λ name there. absurd (infra-flat name there)

copy_dir-enough_example : (copy_dir disk 2 infra target shop).0 ≢ deeper
unfolding disk-Laws
copy_dir-enough_example =
    copy_dir-enough disk disk-Laws 2 infra target shop infra-Apart infra-Within

abbrev pub resources : FilePath
resources = codes "resources" ∷ codes "demo" ∷ group_dir

workload-Apart : Apart workload_dir resources
unfolding is_under path_eq
workload-Apart = Apart-of workload_dir resources refl refl

sync_resources-copies_example :
    tree
      (sync_resources disk 2 workload_dir resources shop).1
      (codes "config.yaml" ∷ codes "infra" ∷ resources)
    ≡ some (file text)
unfolding disk-Laws sync_resources sync_entry sync_infra_resources infra_entry copy_named copy_dir
    each copy_entry copy_file is_private listing tree path_eq is_under is_name put make_all write
    read child is_route
sync_resources-copies_example =
    sync_resources-copies disk disk-Laws 2 workload_dir resources shop (codes "infra")
      (codes "config.yaml" ∷ []) text workload-Apart refl refl refl refl

sync_resources-leaves_example :
    tree (sync_resources disk 2 workload_dir resources shop).1 (codes ".secret-seed" ∷ resources)
    ≡ tree shop (codes ".secret-seed" ∷ resources)
unfolding disk-Laws is_private
sync_resources-leaves_example =
    sync_resources-leaves disk disk-Laws 2 workload_dir resources shop (codes ".secret-seed") []
      (inl refl) workload-Apart.0

abbrev pub gateway_file : FilePath
gateway_file = codes "gateway.yaml" ∷ []

abbrev pub listeners : Bytes
listeners = codes "listeners:\n"

apply_listener-refines_example :
    (added ≡ (apply_gateway_listener listeners (new_listener (codes "demo"))).0)
    × (tree (apply_listener disk gateway_file (new_listener (codes "demo")) shop).1 gateway_file
        ≡ some (file (apply_gateway_listener listeners (new_listener (codes "demo"))).1))
unfolding disk-Laws apply_listener add_listener has_listener_in_file append_listener_to_file read
    tree path_eq is_name has_listener contains marker write put
apply_listener-refines_example =
    apply_listener-refines disk disk-Laws gateway_file (new_listener (codes "demo")) listeners added
      shop refl refl
