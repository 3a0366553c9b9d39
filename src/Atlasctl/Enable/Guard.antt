-- ===== src/Atlasctl/Enable/Guard.antt =====
-- When the command of tools/atlasctl/cmd/enable.go writes nothing.
use atlas_idp.Common.{
  ℕ, ◌≡◌, ◌≢◌, refl, sym, ap, ◌∙◌, inl, inr, true, false, none, List, Bytes, codes, Act, ◌>>=◌,
  arith, Option-cases, Bool-cases,
}
use atlas_idp.Atlasctl.Kube.{Machine, Ran}
use atlas_idp.Atlasctl.Disk.{child, Disk}
use atlas_idp.Atlasctl.Disk.Laws.{Tree, DiskLaws, IsSeen}
use atlas_idp.Atlasctl.Gitops.{Places, Paths, resolve_paths, Copied, done, failed}
use atlas_idp.Atlasctl.Enable.{EnableFlags, refusal, enable_workload, enable_asked, gateway_yaml}

failed≢done : {e : Bytes} → failed e ≢ done
failed≢done h = cc

module _ (d : Disk) (l : DiskLaws d) where
  pub refusal-keeps : (p : Paths) (w : d.World) → l.tree (refusal d p w).1 ≡ l.tree w
  unfolding refusal
  refusal-keeps p w =
      let w₁ = (d.stat p.workload_dir w).1 in
      let w₂ = (d.stat (child p.workload_dir (codes "app.yaml")) w₁).1 in
      let kept = l.stat_keeps p.workload_dir w in
      let kept' = l.stat_keeps (child p.workload_dir (codes "app.yaml")) w₁ ∙ kept in
      let kept'' = l.stat_keeps p.gitops_file w₂ ∙ kept' in ground (arith, kept, kept', kept'')

  refusal-enabled :
      (p : Paths) (w : d.World)
      → l.tree w p.gitops_file ≢ none
      → IsSeen d l p.gitops_file
      → (refusal d p w).0 ≢ none
  unfolding refusal
  refusal-enabled p w h is_seen =
      let w₁ = (d.stat p.workload_dir w).1 in
      let app_yaml = child p.workload_dir (codes "app.yaml") in
      let w₂ = (d.stat app_yaml w₁).1 in
      let kept = l.stat_keeps app_yaml w₁ ∙ l.stat_keeps p.workload_dir w in
      let seen = is_seen w₂ (λ gone. h (sym (ap (λ (t : Tree). t p.gitops_file) kept) ∙ gone)) in
      ground (arith, seen)

module _ (d : Disk) (l : DiskLaws d) (git : List Bytes → Act d.World Ran) (m : Machine) (depth : ℕ)
    (flags : EnableFlags) (places : Places) (group app : Bytes) where
  abbrev workload_paths : Paths
  workload_paths = resolve_paths (record { group = group; app = app }) places

  -- What the run ends with, on the files and on the cluster.
  abbrev pub enabled : d.World → m.World → Copied × (d.World × m.World)
  enabled w v = enable_workload d git m depth flags places group app (w, v)

  -- If os.Stat of the GitOps file succeeds whenever that file is there, then without --force
  -- `atlasctl enable` of a workload whose GitOps file exists ends with an error, leaves every path
  -- as it was and calls nothing of the cluster.
  pub enable-refuses :
      (w : d.World) (v : m.World)
      → flags.force ≡ false
      → l.tree w workload_paths.gitops_file ≢ none
      → IsSeen d l workload_paths.gitops_file
      → ((enabled w v).0 ≢ done) × (l.tree (enabled w v).1.0 ≡ l.tree w) × ((enabled w v).1.1 ≡ v)
  unfolding enable_workload
  enable-refuses w v free there is_seen =
      let kept = refusal-keeps d l workload_paths w in
      elim (Option-cases ((refusal d workload_paths w).0)) [
        | inl passed ↦ absurd (refusal-enabled d l workload_paths w there is_seen passed)
        | inr (e, refused) ↦ rw (enable_workload, ◌>>=◌, free, refused) (failed≢done, kept, refl)
      ]

  -- With --dry-run `atlasctl enable` leaves every path as it was and calls nothing of the cluster,
  -- with --force, with --seed and with --sync too.
  enable-dry_run :
      (w : d.World) (v : m.World)
      → flags.dry_run ≡ true
      → (l.tree (enabled w v).1.0 ≡ l.tree w) × ((enabled w v).1.1 ≡ v)
  unfolding enable_workload enable_asked
  enable-dry_run w v dry =
      let yaml = gateway_yaml d workload_paths in
      elim (Bool-cases flags.force) [
        | inl forced ↦
            rw (enable_workload, enable_asked, ◌>>=◌, forced, dry) (l.stat_keeps yaml w, refl)
        | inr free ↦
            let w₁ = (refusal d workload_paths w).1 in
            let kept = refusal-keeps d l workload_paths w in
            elim (Option-cases ((refusal d workload_paths w).0)) [
              | inl passed ↦
                  rw (enable_workload, enable_asked, ◌>>=◌, free, passed, dry)
                    (l.stat_keeps yaml w₁ ∙ kept, refl)
              | inr (e, refused) ↦ rw (enable_workload, ◌>>=◌, free, refused) (kept, refl)
            ]
      ]
