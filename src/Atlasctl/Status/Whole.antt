-- ===== src/Atlasctl/Status/Whole.antt =====
-- The loops of the command of tools/atlasctl/cmd/list.go over groups and applications.
use atlas_idp.Common.{
  ◌≡◌, ◌≢◌, ◌⊎◌, refl, sym, ap, ◌∙◌, inl, inr, true, Option, none, some, List, [], ◌∷◌, ◌++◌, Bytes,
  codes, All, ◌>>=◌, pure, some≢none, Bool-cases, if◌then◌else◌,
}
use atlas_idp.Atlasctl.Config.{walk}
use atlas_idp.Atlasctl.Kube.{fine}
use atlas_idp.Atlasctl.Disk.{FilePath, child, Entry, Disk}
use atlas_idp.Atlasctl.Disk.Paths.{IsPlain, child-plain}
use atlas_idp.Atlasctl.Disk.Laws.{Tree, Node, file, folder, IsListed, Names, DiskLaws, IsSeen}
use atlas_idp.Atlasctl.Gitops.{Places}
use atlas_idp.Atlasctl.Status.{
  WorkloadItem, list_app, list_apps, appended, entries_at, list_group, list_groups, list_workloads,
}
use atlas_idp.Atlasctl.Status.Complete.{
  Shows, Shows-left, Shows-right, not_missing, still, manifest_of, gitops_file_of, list_app-keeps,
  list_app-Shows,
}

child-manifest : (dir : FilePath) → child dir (codes "app.yaml") ≡ codes "app.yaml" ∷ dir
unfolding child walk
child-manifest dir = refl

-- The entries have a directory of that name.
abbrev Dirs : Bytes → List Entry → Type 0
Dirs name [] = ⊥
Dirs name (e ∷ entries) = ((e.name ≡ name) × (e.is_dir ≡ true)) ⊎ Dirs name entries

listed_dir :
    (a : Tree) (dir : FilePath) (e : Entry)
    → IsListed a dir e
    → a (e.name ∷ dir) ≡ some folder
    → e.is_dir ≡ true
listed_dir a dir e (inl (is_dir, _)) here = is_dir
listed_dir a dir e (inr (_, content, there)) here =
    let same : ◌≡◌ {A = Option Node} (some (file content)) (some folder) = sym there ∙ here in cc

Names-Dirs :
    (a : Tree) (dir : FilePath) (name : Bytes) (entries : List Entry)
    → a (name ∷ dir) ≡ some folder
    → All (λ e. IsPlain e.name × IsListed a dir e) entries
    → Names name entries
    → Dirs name entries
Names-Dirs a dir name [] here _ h = h
Names-Dirs a dir name (e ∷ entries) here ((_, listed), _) (inl same) =
    inl (same, listed_dir a dir e listed (ap (λ n. a (n ∷ dir)) same ∙ here))
Names-Dirs a dir name (e ∷ entries) here (_, rest) (inr later) =
    inr (Names-Dirs a dir name entries here rest later)

module _ (d : Disk) (l : DiskLaws d) (places : Places) where
  list_apps-keeps :
      (group : Bytes) (entries : List Entry) (w : d.World)
      → l.tree (list_apps d places group entries w).1 ≡ l.tree w
  unfolding list_apps
  list_apps-keeps group [] w = refl
  list_apps-keeps group (e ∷ entries) w = elim (Bool-cases e.is_dir) [
    | inl dir ↦
        rw (list_apps, ◌>>=◌, dir)
          (list_apps-keeps group entries (list_app d places group e.name w).1
            ∙ list_app-keeps d l places group e.name w)
    | inr other ↦ rw (list_apps, ◌>>=◌, other) (list_apps-keeps group entries w)
  ]

  list_if-keeps :
      (group : Bytes) (e : Entry) (w : d.World)
      → l.tree ((if e.is_dir then list_app d places group e.name else pure none) w).1 ≡ l.tree w
  list_if-keeps group e w = elim (Bool-cases e.is_dir) [
    | inl dir ↦ rw dir (list_app-keeps d l places group e.name w)
    | inr other ↦ rw other refl
  ]

  Shows-appended :
      (name : Bytes) (item : Option WorkloadItem) (items : List WorkloadItem)
      → Shows name items
      → Shows name (appended d places item items)
  Shows-appended name none items h = h
  Shows-appended name (some item) items h = inr h

  list_apps-Shows :
      (group app : Bytes) (entries : List Entry) (w : d.World)
      → Dirs app entries
      → l.tree w (manifest_of d l places group app) ≢ none
      → l.tree w (gitops_file_of d l places group app) ≢ none
      → IsSeen d l (gitops_file_of d l places group app)
      → Shows (group ++ (codes "/" ++ app)) (list_apps d places group entries w).0
  unfolding list_apps
  list_apps-Shows group app [] w h manifest enabled is_seen = absurd h
  list_apps-Shows group app (e ∷ entries) w (inl (same, dir)) manifest enabled is_seen =
      let items = (list_apps d places group entries (list_app d places group app w).1).0 in
      rw (list_apps, ◌>>=◌, dir, same)
        (list_app-Shows d l places group app w items manifest enabled is_seen)
  list_apps-Shows group app (e ∷ entries) w (inr later) manifest enabled is_seen =
      let w₁ = ((if e.is_dir then list_app d places group e.name else pure none) w).1 in
      let kept = list_if-keeps group e w in
      Shows-appended (group ++ (codes "/" ++ app))
        ((if e.is_dir then list_app d places group e.name else pure none) w).0
        (list_apps d places group entries w₁).0
        (list_apps-Shows group app entries w₁ later
          (still d l (manifest_of d l places group app) w₁ w kept manifest)
          (still d l (gitops_file_of d l places group app) w₁ w kept enabled) is_seen)

  entries_at-keeps :
      (dir : FilePath) (w : d.World) → l.tree (entries_at d places dir w).1 ≡ l.tree w
  unfolding entries_at
  entries_at-keeps dir w = l.read_dir_keeps dir w

  list_group-keeps : (e : Entry) (w : d.World) → l.tree (list_group d places e w).1 ≡ l.tree w
  unfolding list_group
  list_group-keeps e w =
      let dir = child places.scaffold_dir e.name in
      let (entries, w₁) = entries_at d places dir w in
      elim (Bool-cases e.is_dir) [
        | inl is_dir ↦
            rw (list_group, ◌>>=◌, is_dir)
              (list_apps-keeps e.name entries w₁ ∙ entries_at-keeps dir w)
        | inr other ↦ rw (list_group, other) refl
      ]

  module _
      (readable : (p : FilePath) (w : d.World)
        → l.tree w p ≡ some folder
        → (entries : List Entry) × ((d.read_dir p w).0 ≡ fine entries))
      (group app : Bytes) (plain : IsPlain group) (plain' : IsPlain app)
      (is_seen : IsSeen d l (gitops_file_of d l places group app)) where
    abbrev group_dir : FilePath
    group_dir = group ∷ places.scaffold_dir

    -- a directory that can be read lists the directories in it
    entries_at-Dirs :
        (dir : FilePath) (name : Bytes) (w : d.World)
        → l.tree w (name ∷ dir) ≡ some folder
        → Dirs name (entries_at d places dir w).0
    unfolding entries_at
    entries_at-Dirs dir name w here =
        let there : l.tree w (name ∷ dir) ≢ none = (λ gone. some≢none (sym here ∙ gone)) in
        let (entries, good) = readable dir w (l.in_folder name dir w there) in
        rw (entries_at, good)
          (Names-Dirs (l.tree w) dir name entries here (l.read_dir_gives dir w entries good)
            (l.read_dir_all dir w entries name good there))

    abbrev IsEnabled : d.World → Type 0
    IsEnabled w =
        (l.tree w (app ∷ group_dir) ≡ some folder)
        × (l.tree w (manifest_of d l places group app) ≢ none)
        × (l.tree w (gitops_file_of d l places group app) ≢ none)

    IsEnabled-still : (u w : d.World) → l.tree u ≡ l.tree w → IsEnabled w → IsEnabled u
    IsEnabled-still u w same (dir, manifest, enabled) = (
      ap (λ (t : Tree). t (app ∷ group_dir)) same ∙ dir,
      still d l (manifest_of d l places group app) u w same manifest,
      still d l (gitops_file_of d l places group app) u w same enabled,
    )

    list_group-Shows :
        (e : Entry) (w : d.World)
        → e.name ≡ group
        → e.is_dir ≡ true
        → IsEnabled w
        → Shows (group ++ (codes "/" ++ app)) (list_group d places e w).0
    unfolding list_group
    list_group-Shows e w same is_dir on =
        let (entries, w₁) = entries_at d places group_dir w in
        let listed = entries_at-Dirs group_dir app w on.0 in
        let on₁ = IsEnabled-still w₁ w (entries_at-keeps group_dir w) on in
        rw (list_group, ◌>>=◌, is_dir, same, child-plain places.scaffold_dir group plain)
          (list_apps-Shows group app entries w₁ listed on₁.1 on₁.2 is_seen)

    list_groups-Shows :
        (entries : List Entry) (w : d.World)
        → Dirs group entries
        → IsEnabled w
        → Shows (group ++ (codes "/" ++ app)) (list_groups d places entries w).0
    unfolding list_groups
    list_groups-Shows [] w h on = absurd h
    list_groups-Shows (e ∷ entries) w (inl (same, is_dir)) on =
        let (items, w₁) = list_group d places e w in
        Shows-left (group ++ (codes "/" ++ app)) items (list_groups d places entries w₁).0
          (list_group-Shows e w same is_dir on)
    list_groups-Shows (e ∷ entries) w (inr later) on =
        let (items, w₁) = list_group d places e w in
        Shows-right (group ++ (codes "/" ++ app)) items (list_groups d places entries w₁).0
          (list_groups-Shows entries w₁ later (IsEnabled-still w₁ w (list_group-keeps e w) on))

    -- If every directory can be read, the names of the group and the application are plain, and
    -- os.Stat of the file of the workload in the GitOps directory succeeds whenever that file is
    -- there, `atlasctl list` shows the workload, if it has an app.yaml and that file, under its
    -- name and as enabled, whatever else is on the disk.
    pub list-Shows :
        (w : d.World)
        → l.tree w (manifest_of d l places group app) ≢ none
        → l.tree w (gitops_file_of d l places group app) ≢ none
        → Shows (group ++ (codes "/" ++ app)) (list_workloads d places w).0
    unfolding list_workloads
    list-Shows w manifest enabled =
        let from = child-plain places.scaffold_dir group plain in
        let to = child-plain group_dir app plain' in
        let scaffold = places.scaffold_dir in
        let at_app : l.tree w (app ∷ group_dir) ≡ some folder =
          l.in_folder (codes "app.yaml") (app ∷ group_dir) w
            (rw (from, to, child-manifest) at manifest) in
        let at_group = l.in_folder app group_dir w (λ gone. some≢none (sym at_app ∙ gone)) in
        let at_root = l.in_folder group scaffold w (λ gone. some≢none (sym at_group ∙ gone)) in
        let w₁ = (d.stat scaffold w).1 in
        let (entries, w₂) = entries_at d places scaffold w₁ in
        let same = entries_at-keeps scaffold w₁ ∙ l.stat_keeps scaffold w in
        let listed =
          entries_at-Dirs scaffold group w₁
            (ap (λ (t : Tree). t group_dir) (l.stat_keeps scaffold w) ∙ at_group) in
        rw
          (
            list_workloads,
            ◌>>=◌,
            not_missing d l scaffold w (λ gone. some≢none (sym at_root ∙ gone)),
          )
          (list_groups-Shows entries w₂ listed
            (IsEnabled-still w₂ w same (at_app, manifest, enabled)))
