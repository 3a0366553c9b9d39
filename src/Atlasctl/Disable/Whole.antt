-- ===== src/Atlasctl/Disable/Whole.antt =====
-- The command of tools/atlasctl/cmd/disable.go with its flags: what a run that reports no error has
-- undone, and that no run changes anything else.
use atlas_idp.Common.{
  ◌⊎◌, ◌≡◌, ◌≢◌, refl, sym, ap, ◌∙◌, inl, inr, Bool, true, false, ◌||◌, none, some, List, [], ◌∷◌,
  ◌++◌, Bytes, codes, Act, ◌>>=◌, ◌>>◌, Option-cases, some≢none, Bool-cases, if◌then◌else◌,
}
use atlas_idp.Atlasctl.Config.{spelled}
use atlas_idp.Atlasctl.Gateway.{apply_gateway_listener}
use atlas_idp.Atlasctl.Kube.{Ran, fine}
use atlas_idp.Atlasctl.Disk.{FilePath, Disk}
use atlas_idp.Atlasctl.Disk.Laws.{Tree, file, DiskLaws, IsSeen}
use atlas_idp.Atlasctl.Seed.Command.{agrees}
use atlas_idp.Atlasctl.Gitops.{Places, Paths, resolve_paths}
use atlas_idp.Atlasctl.Enable.{is_found, is_missing}
use atlas_idp.Atlasctl.Enable.Publish.{push_if-keeps}
use atlas_idp.Atlasctl.Disable.{
  DisableFlags, old_listener, disable_files, commit_removal, disable_now, disable_workload,
}
use atlas_idp.Atlasctl.Disable.Effect.{IsCleared}
use atlas_idp.Atlasctl.Disable.Undo.{
  disable_files-frame, disable_files-listener, disable_files-manifest, disable_files-route,
  disable_files-no_route,
}

-- The GitOps file and the route file are not there; the gateway file is what taking
-- the listener out of `content` leaves.
pub record IsUndone (p : Paths) (app content : Bytes) (b : Tree) : Type 0 where
  pub manifest : b p.gitops_file ≡ none
  pub route : b p.gateway_route_file ≡ none
  pub listener :
      b p.gateway_file ≡ some (file (apply_gateway_listener content (old_listener app)).1)

module _ (d : Disk) (l : DiskLaws d) (git : List Bytes → Act d.World Ran)
    (git_keeps : (args : List Bytes) (w : d.World) → l.tree (git args w).1 ≡ l.tree w) where
  commit_removal-keeps :
      (group app : Bytes) (has_gateway : Bool) (p : Paths) (push : Bool) (w : d.World)
      → l.tree (commit_removal d git group app has_gateway p push w).1 ≡ l.tree w
  unfolding commit_removal
  commit_removal-keeps group app has_gateway p push w =
      let add =
        (codes "add" ∷ codes "-A" ∷ codes "--" ∷ spelled p.gitops_dir ∷ spelled p.gateway_file ∷ [])
        ++ (if has_gateway then spelled p.gateway_route_file ∷ [] else []) in
      let commit =
        codes "commit"
        ∷ codes "-m"
        ∷ (codes "disable(workloads): remove " ++ (group ++ (codes "/" ++ app)))
        ∷ [] in
      let w₁ = (git add w).1 in
      push_if-keeps d l git git_keeps push (git commit w₁).1 ∙ git_keeps commit w₁ ∙ git_keeps add w

  module _ (flags : DisableFlags) (group app : Bytes) where
    -- the commit changes no file
    disable_now-tree :
        (has_gateway : Bool) (p : Paths) (w : d.World)
        → l.tree (disable_now d git flags group app has_gateway p w).1
          ≡ l.tree (disable_files d app has_gateway p w).1
    unfolding disable_now
    disable_now-tree has_gateway p w =
        let w₁ = (disable_files d app has_gateway p w).1 in
        elim (Option-cases ((disable_files d app has_gateway p w).0)) [
          | inr (e, bad) ↦ rw (disable_now, ◌>>=◌, bad) refl
          | inl good ↦ elim (Bool-cases flags.sync) [
            | inr stay ↦ rw (disable_now, ◌>>=◌, good, stay) refl
            | inl sync ↦
                rw (disable_now, ◌>>=◌, good, sync)
                  (commit_removal-keeps group app has_gateway p flags.push w₁)
          ]
        ]

    disable_now-files :
        (has_gateway : Bool) (p : Paths) (w : d.World)
        → (disable_now d git flags group app has_gateway p w).0 ≡ none
        → (disable_files d app has_gateway p w).0 ≡ none
    unfolding disable_now
    disable_now-files has_gateway p w h =
        elim (Option-cases ((disable_files d app has_gateway p w).0)) [
          | inl good ↦ good
          | inr (e, bad) ↦ absurd (some≢none (rw (disable_now, ◌>>=◌, bad) at h))
        ]

    -- the route is removed, or was not there
    route_gone :
        (p : Paths) (u : d.World) (has_gateway : Bool)
        → (has_gateway ≡ true)
          ⊎ ((l.tree u p.gateway_route_file ≡ none) × (p.gateway_route_file ≢ p.gateway_file))
        → (disable_files d app has_gateway p u).0 ≡ none
        → l.tree (disable_files d app has_gateway p u).1 p.gateway_route_file ≡ none
    route_gone p u true _ h = disable_files-route d l app p u h
    route_gone p u false (inl no_route) h = cc
    route_gone p u false (inr (absent, ne)) h = disable_files-no_route d l app p u absent ne h

    module _ (places : Places) (w : d.World) where
      abbrev disabled_paths : Paths
      disabled_paths = resolve_paths (record { group = group; app = app }) places

      -- the world behind the two tests, and what the second found
      abbrev asked : d.World
      asked = (d.stat disabled_paths.gateway_route_file (d.stat disabled_paths.gitops_file w).1).1

      abbrev has_route : Bool
      has_route =
          is_found
            (d.stat disabled_paths.gateway_route_file (d.stat disabled_paths.gitops_file w).1).0

      asked-keeps : l.tree asked ≡ l.tree w
      asked-keeps =
          l.stat_keeps disabled_paths.gateway_route_file (d.stat disabled_paths.gitops_file w).1
          ∙ l.stat_keeps disabled_paths.gitops_file w

      -- a route file that is there is found
      route_there :
          IsSeen d l disabled_paths.gateway_route_file
          → disabled_paths.gateway_route_file ≢ disabled_paths.gateway_file
          → (has_route ≡ true)
            ⊎ ((l.tree asked disabled_paths.gateway_route_file ≡ none)
                × (disabled_paths.gateway_route_file ≢ disabled_paths.gateway_file))
      route_there is_seen ne =
          let route = disabled_paths.gateway_route_file in
          let w₁ = (d.stat disabled_paths.gitops_file w).1 in
          elim (Option-cases (l.tree w₁ route)) [
            | inl absent ↦ inr (ap (λ (t : Tree). t route) (l.stat_keeps route w₁) ∙ absent, ne)
            | inr (item, here) ↦
                inl (ap is_found (is_seen w₁ (λ gone. some≢none (sym here ∙ gone))))
          ]

      -- a run that is no dry run and reports no error removes the files
      disable_workload-runs :
          flags.dry_run ≡ false
          → (disable_workload d git flags places group app w).0 ≡ none
          → disable_workload d git flags places group app w
            ≡ disable_now d git flags group app has_route disabled_paths asked
      unfolding disable_workload
      disable_workload-runs wet h =
          elim (Bool-cases (is_missing (d.stat disabled_paths.gitops_file w).0)) [
            | inl missing ↦ absurd (some≢none (rw (disable_workload, ◌>>=◌, missing) at h))
            | inr there ↦ elim (Bool-cases (flags.skip_confirm || agrees flags.answer)) [
              | inl go ↦ rw (disable_workload, ◌>>=◌, there, wet, go) refl
              | inr stop ↦ absurd (some≢none (rw (disable_workload, ◌>>=◌, there, wet, stop) at h))
            ]
          ]

      -- `atlasctl disable` changes no path but the gateway file, the GitOps file, the resources,
      -- the directory above these, the route file and the directory of the group of the workload in
      -- the GitOps directory. This holds with all flags and of runs that end with an error, if git
      -- changes no file.
      pub disable-keeps :
          (q : FilePath)
          → ¬ IsCleared disabled_paths q
          → q ≢ disabled_paths.gateway_file
          → l.tree (disable_workload d git flags places group app w).1 q ≡ l.tree w q
      unfolding disable_workload disable_now
      disable-keeps q out ne =
          let kept : l.tree asked q ≡ l.tree w q = ap (λ (t : Tree). t q) asked-keeps in
          let kept₁ = ap (λ (t : Tree). t q) (l.stat_keeps disabled_paths.gitops_file w) in
          let kept₂ = ap (λ (t : Tree). t q) (l.stat_keeps disabled_paths.gitops_resources asked) in
          elim (Bool-cases (is_missing (d.stat disabled_paths.gitops_file w).0)) [
            | inl missing ↦ rw (disable_workload, ◌>>=◌, missing) kept₁
            | inr there ↦ elim (Bool-cases flags.dry_run) [
              | inl dry ↦ rw (disable_workload, ◌>>=◌, ◌>>◌, there, dry) (kept₂ ∙ kept)
              | inr wet ↦ elim (Bool-cases (flags.skip_confirm || agrees flags.answer)) [
                | inr stop ↦ rw (disable_workload, ◌>>=◌, there, wet, stop) kept
                | inl go ↦
                    let same = disable_now-tree has_route disabled_paths asked in
                    rw (disable_workload, ◌>>=◌, there, wet, go)
                      (ap (λ (t : Tree). t q) same
                        ∙ disable_files-frame d l app disabled_paths has_route q asked out ne
                        ∙ kept)
              ]
            ]
          ]

      -- If `atlasctl disable` reports no error, is no dry run and could read the gateway file,
      -- which is not among the paths it removes, and os.Stat of the route file succeeds whenever
      -- that file is there, then the GitOps file is gone, no route file is there, and the gateway
      -- file is the one that taking the listener of the application out of its content gives, if
      -- git changes no file.
      pub disable-undoes :
          (content : Bytes)
          → flags.dry_run ≡ false
          → ¬ IsCleared disabled_paths disabled_paths.gateway_file
          → IsSeen d l disabled_paths.gateway_route_file
          → ((u : d.World)
              → l.tree u ≡ l.tree w
              → (d.read_file disabled_paths.gateway_file u).0 ≡ fine content)
          → (disable_workload d git flags places group app w).0 ≡ none
          → IsUndone disabled_paths app content
              (l.tree (disable_workload d git flags places group app w).1)
      disable-undoes content wet out is_seen readable h =
          let p = disabled_paths in
          let same = disable_workload-runs wet h in
          let h' = disable_now-files has_route p asked (rw same at h) in
          rw (same, disable_now-tree)
            (record {
              manifest = disable_files-manifest d l app p has_route asked h';
              route =
                  route_gone p asked has_route
                    (route_there is_seen (λ same. out (inr (inr (inr (inl (sym same))))))) h';
              listener =
                  disable_files-listener d l app p has_route content asked out
                    (readable asked asked-keeps) h';
            })
