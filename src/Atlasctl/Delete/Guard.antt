-- ===== src/Atlasctl/Delete/Guard.antt =====
-- When the command of tools/atlasctl/cmd/delete.go removes a workload, and what else it removes.
use atlas_idp.Common.{
  ◌≡◌, ◌≢◌, refl, sym, ap, ◌∙◌, inl, inr, false, none, some, ◌∷◌, ◌++◌, Bytes, codes, ◌>>=◌, arith,
  Option-cases, Bool-cases, ◌||◌, some≢none,
}
use atlas_idp.Atlasctl.Config.{parent, walk}
use atlas_idp.Atlasctl.Seed.Command.{parse_workload_arg, agrees}
use atlas_idp.Atlasctl.Disk.{FilePath, child, Disk, Stat-cases}
use atlas_idp.Atlasctl.Disk.Paths.{IsUnder, IsPlain, child-plain}
use atlas_idp.Atlasctl.Disk.Laws.{Tree, DiskLaws, IsSeen}
use atlas_idp.Atlasctl.Delete.{
  DeleteFlags, remove_empty, delete_now, delete_confirmed, delete_workload, delete_command,
}

child-dot_dot : (dir : FilePath) (name : Bytes) → child (name ∷ dir) (codes "..") ≡ dir
unfolding child walk
child-dot_dot dir name = refl

-- `dir` and all below it are gone; nothing else changed but for the directory above.
abbrev IsCut : FilePath → Tree → Tree → Type 0
IsCut dir a b =
    ((q : FilePath) → IsUnder dir q → b q ≡ none)
    × ((q : FilePath) → ¬ IsUnder dir q → q ≢ parent dir → b q ≡ a q)

module _ (d : Disk) (l : DiskLaws d) where
  remove_empty-frame :
      (dir q : FilePath) (w : d.World) → q ≢ dir → l.tree (remove_empty d dir w).1 q ≡ l.tree w q
  unfolding remove_empty
  remove_empty-frame dir q w ne =
      let kept = ap (λ (t : Tree). t q) (l.read_dir_keeps dir w) in
      ground (arith, kept, l.remove_frame dir q (d.read_dir dir w).1 ne)

  remove_empty-gone :
      (dir q : FilePath) (w : d.World)
      → l.tree w q ≡ none
      → l.tree (remove_empty d dir w).1 q ≡ none
  unfolding remove_empty
  remove_empty-gone dir q w h =
      let kept = ap (λ (t : Tree). t q) (l.read_dir_keeps dir w) ∙ h in
      ground (arith, kept, l.remove_gone dir q (d.read_dir dir w).1 kept)

  delete_now-IsCut :
      (dir : FilePath) (w : d.World)
      → (delete_now d dir w).0 ≡ none
      → IsCut dir (l.tree w) (l.tree (delete_now d dir w).1)
  unfolding delete_now
  delete_now-IsCut dir w h =
      let w' = (d.remove_all dir w).1 in
      elim (Option-cases ((d.remove_all dir w).0)) [
        | inr (e, bad) ↦ absurd (some≢none (rw (delete_now, ◌>>=◌, bad) at h))
        | inl done ↦
            rw (delete_now, ◌>>=◌, done)
              (
                λ q under.
                    remove_empty-gone (parent dir) q w' (l.remove_all_done dir q w done under),
                λ q out ne.
                    remove_empty-frame (parent dir) q w' ne ∙ l.remove_all_frame dir q w out,
              )
      ]

  -- a run that is no dry run and reports no error removes the directory
  delete_confirmed-runs :
      (flags : DeleteFlags) (dir : FilePath) (w : d.World)
      → flags.dry_run ≡ false
      → (delete_confirmed d flags dir w).0 ≡ none
      → delete_confirmed d flags dir w ≡ delete_now d dir w
  unfolding delete_confirmed
  delete_confirmed-runs flags dir w wet h =
      elim (Bool-cases (flags.skip_confirm || agrees flags.answer)) [
        | inl go ↦ rw (delete_confirmed, wet, go)
        | inr stop ↦ absurd (some≢none (rw (delete_confirmed, wet, stop) at h))
      ]

  module _ (flags : DeleteFlags) (scaffold_dir workloads_dir : FilePath) where
    module _ (group app : Bytes) where
      abbrev workload_dir : FilePath
      workload_dir = child (child scaffold_dir group) app

      abbrev gitops_file : FilePath
      gitops_file = child (child workloads_dir group) (app ++ codes ".yaml")

      -- If os.Stat of the file of the workload in the GitOps directory succeeds whenever that file
      -- is there, `atlasctl delete` ends with an error and leaves every path as it was where the
      -- file of the workload in the GitOps directory exists, whether the directory of the workload
      -- does or not.
      pub delete-enabled :
          (w : d.World)
          → l.tree w gitops_file ≢ none
          → IsSeen d l gitops_file
          → ((delete_workload d flags scaffold_dir workloads_dir group app w).0 ≢ none)
            × (l.tree (delete_workload d flags scaffold_dir workloads_dir group app w).1 ≡ l.tree w)
      unfolding delete_workload
      delete-enabled w h is_seen =
          let w₁ = (d.stat workload_dir w).1 in
          let kept = l.stat_keeps workload_dir w in
          let kept' = l.stat_keeps gitops_file w₁ ∙ kept in
          let seen = is_seen w₁ (λ gone. h (sym (ap (λ (t : Tree). t gitops_file) kept) ∙ gone)) in
          elim (Stat-cases ((d.stat workload_dir w).0)) [
            | inl there ↦ rw (delete_workload, ◌>>=◌, there, seen) (some≢none, kept')
            | inr (inl absent) ↦ rw (delete_workload, ◌>>=◌, absent) (some≢none, kept)
            | inr (inr unclear) ↦ rw (delete_workload, ◌>>=◌, unclear, seen) (some≢none, kept')
          ]

      -- the confirmed deletion behind the two tests
      checked-IsCut :
          (w : d.World)
          → flags.dry_run ≡ false
          → let w₂ = (d.stat gitops_file (d.stat workload_dir w).1).1 in
            (delete_confirmed d flags workload_dir w₂).0 ≡ none
            → IsCut workload_dir (l.tree w) (l.tree (delete_confirmed d flags workload_dir w₂).1)
      checked-IsCut w wet h =
          let w₁ = (d.stat workload_dir w).1 in
          let w₂ = (d.stat gitops_file w₁).1 in
          let same = delete_confirmed-runs flags workload_dir w₂ wet h in
          let cut = delete_now-IsCut workload_dir w₂ (rw same at h) in
          rw (same, ← l.stat_keeps workload_dir w, ← l.stat_keeps gitops_file w₁) cut

      delete_workload-IsCut :
          (w : d.World)
          → flags.dry_run ≡ false
          → (delete_workload d flags scaffold_dir workloads_dir group app w).0 ≡ none
          → IsCut workload_dir
              (l.tree w)
              (l.tree (delete_workload d flags scaffold_dir workloads_dir group app w).1)
      unfolding delete_workload
      delete_workload-IsCut w wet h =
          let w₁ = (d.stat workload_dir w).1 in
          elim (Stat-cases ((d.stat workload_dir w).0)) [
            | inr (inl absent) ↦ absurd (some≢none (rw (delete_workload, ◌>>=◌, absent) at h))
            | inl there ↦ elim (Stat-cases ((d.stat gitops_file w₁).0)) [
              | inl seen ↦ absurd (some≢none (rw (delete_workload, ◌>>=◌, there, seen) at h))
              | inr (inl gone) ↦
                  rw (delete_workload, ◌>>=◌, there, gone)
                    (checked-IsCut w wet (rw (delete_workload, ◌>>=◌, there, gone) at h))
              | inr (inr odd) ↦
                  rw (delete_workload, ◌>>=◌, there, odd)
                    (checked-IsCut w wet (rw (delete_workload, ◌>>=◌, there, odd) at h))
            ]
            | inr (inr unclear) ↦ elim (Stat-cases ((d.stat gitops_file w₁).0)) [
              | inl seen ↦ absurd (some≢none (rw (delete_workload, ◌>>=◌, unclear, seen) at h))
              | inr (inl gone) ↦
                  rw (delete_workload, ◌>>=◌, unclear, gone)
                    (checked-IsCut w wet (rw (delete_workload, ◌>>=◌, unclear, gone) at h))
              | inr (inr odd) ↦
                  rw (delete_workload, ◌>>=◌, unclear, odd)
                    (checked-IsCut w wet (rw (delete_workload, ◌>>=◌, unclear, odd) at h))
            ]
          ]

    -- the whole command
    delete_command-IsCut :
        (arg group app : Bytes) (w : d.World)
        → flags.dry_run ≡ false
        → parse_workload_arg arg ≡ some (group, app)
        → (delete_command d flags scaffold_dir workloads_dir arg w).0 ≡ none
        → IsCut
            (child (child scaffold_dir group) app)
            (l.tree w)
            (l.tree (delete_command d flags scaffold_dir workloads_dir arg w).1)
    unfolding delete_command
    delete_command-IsCut arg group app w wet parsed h =
        rw (delete_command, parsed)
          (delete_workload-IsCut group app w wet (rw (delete_command, parsed) at h))

    -- If `atlasctl delete` with an argument that splits into GROUP and APP reports no error and the
    -- run is no dry run, the directory of the workload and all below it no longer exist, and every
    -- other path is as it was but for the directory above it.
    pub delete-removes :
        (arg group app : Bytes) (w : d.World) (q other : FilePath)
        → let dir = child (child scaffold_dir group) app in
          let ended = delete_command d flags scaffold_dir workloads_dir arg w in
          flags.dry_run ≡ false
          → parse_workload_arg arg ≡ some (group, app)
          → ended.0 ≡ none
          → IsUnder dir q
          → ¬ IsUnder dir other
          → other ≢ parent dir
          → (l.tree ended.1 q ≡ none) × (l.tree ended.1 other ≡ l.tree w other)
    delete-removes arg group app w q other wet parsed h under out ne =
        let cut = delete_command-IsCut arg group app w wet parsed h in
        (cut.0 q under, cut.1 other out ne)

    -- Where the application in the argument is "..", as in `team/..`, `atlasctl delete` removes the
    -- scaffold directory with the workloads of all groups: if it reports no error and the run is no
    -- dry run, nothing at or below that directory is left.
    pub delete-escapes :
        (arg group : Bytes) (w : d.World) (q : FilePath)
        → flags.dry_run ≡ false
        → IsPlain group
        → parse_workload_arg arg ≡ some (group, codes "..")
        → (delete_command d flags scaffold_dir workloads_dir arg w).0 ≡ none
        → IsUnder scaffold_dir q
        → l.tree (delete_command d flags scaffold_dir workloads_dir arg w).1 q ≡ none
    delete-escapes arg group w q wet plain parsed h under =
        let cut = delete_command-IsCut arg group (codes "..") w wet parsed h in
        (rw (child-plain scaffold_dir group plain, child-dot_dot) at cut.0) q under
