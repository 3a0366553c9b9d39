-- ===== src/Atlasctl/Status/Complete.antt =====
-- What the command of tools/atlasctl/cmd/list.go says of one workload, and that it changes nothing.
use atlas_idp.Common.{
  ◌≡◌, ◌≢◌, ◌⊎◌, refl, sym, ap, ◌∙◌, inl, inr, true, false, none, List, [], ◌∷◌, ◌++◌, Bytes, codes,
  ◌>>=◌, Bool-cases,
}
use atlas_idp.Atlasctl.Kube.{Outcome-cases}
use atlas_idp.Atlasctl.Disk.{FilePath, child, Stat-cases, Disk}
use atlas_idp.Atlasctl.Disk.Laws.{Tree, DiskLaws, IsSeen}
use atlas_idp.Atlasctl.Gitops.{Places}
use atlas_idp.Atlasctl.Gitops.Listener.{has_listener_in_file}
use atlas_idp.Atlasctl.Enable.{is_found, is_missing}
use atlas_idp.Atlasctl.Status.{WorkloadItem, exists_either, detect_features, list_app, appended}

-- A workload of that name is shown as enabled.
abbrev pub Shows : Bytes → List WorkloadItem → Type 0
Shows name [] = ⊥
Shows name (item ∷ items) = ((item.name ≡ name) × (item.enabled ≡ true)) ⊎ Shows name items

pub Shows-left :
    (name : Bytes) (items more : List WorkloadItem) → Shows name items → Shows name (items ++ more)
Shows-left name [] more h = absurd h
Shows-left name (item ∷ items) more (inl this) = inl this
Shows-left name (item ∷ items) more (inr later) = inr (Shows-left name items more later)

pub Shows-right :
    (name : Bytes) (items more : List WorkloadItem) → Shows name more → Shows name (items ++ more)
Shows-right name [] more h = h
Shows-right name (item ∷ items) more h = inr (Shows-right name items more h)

module _ (d : Disk) (l : DiskLaws d) where
  exists_either-keeps : (p q : FilePath) (w : d.World) → l.tree (exists_either d p q w).1 ≡ l.tree w
  unfolding exists_either
  exists_either-keeps p q w =
      let kept = l.stat_keeps p w in
      let kept' = l.stat_keeps q (d.stat p w).1 ∙ kept in
      elim (Bool-cases (is_found (d.stat p w).0)) [
        | inl there ↦ rw (exists_either, ◌>>=◌, there) kept
        | inr absent ↦ rw (exists_either, ◌>>=◌, absent) kept'
      ]

  detect_features-keeps :
      (dir : FilePath) (w : d.World) → l.tree (detect_features d dir w).1 ≡ l.tree w
  unfolding detect_features
  detect_features-keeps dir w =
      l.stat_keeps (child (child dir (codes "monitoring")) (codes "prometheus-rule.yaml")) _
      ∙ exists_either-keeps (child dir (codes "gateway.yaml"))
          (child (child dir (codes "infra")) (codes "gateway.yaml")) _
      ∙ exists_either-keeps (child dir (codes ".secret-seed"))
          (child (child dir (codes "vault")) (codes "policy.hcl")) w

  has_listener-keeps :
      (path : FilePath) (app : Bytes) (w : d.World)
      → l.tree (has_listener_in_file d path app w).1 ≡ l.tree w
  unfolding has_listener_in_file
  has_listener-keeps path app w = elim (Outcome-cases ((d.read_file path w).0)) [
    | inl (e, bad) ↦ rw (has_listener_in_file, ◌>>=◌, bad) (l.read_file_keeps path w)
    | inr (content, good) ↦ rw (has_listener_in_file, ◌>>=◌, good) (l.read_file_keeps path w)
  ]

  -- what exists is not missing
  pub not_missing :
      (p : FilePath) (w : d.World) → l.tree w p ≢ none → is_missing (d.stat p w).0 ≡ false
  not_missing p w there = elim (Stat-cases ((d.stat p w).0)) [
    | inl seen ↦ ap is_missing seen
    | inr (inl gone) ↦ absurd (l.stat_there p w there gone)
    | inr (inr unclear) ↦ ap is_missing unclear
  ]

  pub still :
      (p : FilePath) (u w : d.World) → l.tree u ≡ l.tree w → l.tree w p ≢ none → l.tree u p ≢ none
  still p u w same there gone = there (sym (ap (λ (t : Tree). t p) same) ∙ gone)

  module _ (places : Places) where
    abbrev pub manifest_of : Bytes → Bytes → FilePath
    manifest_of group app = child (child (child places.scaffold_dir group) app) (codes "app.yaml")

    abbrev pub gitops_file_of : Bytes → Bytes → FilePath
    gitops_file_of group app = child (child places.workloads_dir group) (app ++ codes ".yaml")

    pub list_app-keeps :
        (group app : Bytes) (w : d.World) → l.tree (list_app d places group app w).1 ≡ l.tree w
    unfolding list_app
    list_app-keeps group app w =
        let dir = child (child places.scaffold_dir group) app in
        let w₁ = (d.stat (manifest_of group app) w).1 in
        let w₂ = (detect_features d dir w₁).1 in
        let w₃ = (d.stat (gitops_file_of group app) w₂).1 in
        let kept = l.stat_keeps (manifest_of group app) w in
        elim (Bool-cases (is_missing (d.stat (manifest_of group app) w).0)) [
          | inl missing ↦ rw (list_app, ◌>>=◌, missing) kept
          | inr there ↦
              rw (list_app, ◌>>=◌, there)
                (has_listener-keeps places.gateway_file app w₃
                  ∙ l.stat_keeps (gitops_file_of group app) w₂
                  ∙ detect_features-keeps dir w₁
                  ∙ kept)
        ]

    pub list_app-Shows :
        (group app : Bytes) (w : d.World) (items : List WorkloadItem)
        → l.tree w (manifest_of group app) ≢ none
        → l.tree w (gitops_file_of group app) ≢ none
        → IsSeen d l (gitops_file_of group app)
        → Shows
            (group ++ (codes "/" ++ app))
            (appended d places (list_app d places group app w).0 items)
    unfolding list_app
    list_app-Shows group app w items manifest enabled is_seen =
        let dir = child (child places.scaffold_dir group) app in
        let w₁ = (d.stat (manifest_of group app) w).1 in
        let w₂ = (detect_features d dir w₁).1 in
        let kept = detect_features-keeps dir w₁ ∙ l.stat_keeps (manifest_of group app) w in
        let seen = ap is_found (is_seen w₂ (still (gitops_file_of group app) w₂ w kept enabled)) in
        rw (list_app, ◌>>=◌, not_missing (manifest_of group app) w manifest) (inl (refl, seen))
