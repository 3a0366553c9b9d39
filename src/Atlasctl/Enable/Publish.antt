-- ===== src/Atlasctl/Enable/Publish.antt =====
-- The command of tools/atlasctl/cmd/enable.go as a whole: a run that reports no error has published
-- the workload.
use atlas_idp.Common.{
  ℕ, ◌≡◌, ◌⊎◌, refl, ◌∙◌, inl, inr, Bool, true, false, ◌||◌, none, some, List, [], ◌∷◌, ◌++◌, Bytes,
  codes, Act, ◌>>=◌, pure, arith, Option-cases, Bool-cases, if◌then◌else◌,
}
use atlas_idp.Atlasctl.Config.{spelled}
use atlas_idp.Atlasctl.Kube.{Machine, Ran, printed, broke}
use atlas_idp.Atlasctl.Disk.{FilePath, child, Disk}
use atlas_idp.Atlasctl.Disk.Laws.{Tree, file, DiskLaws}
use atlas_idp.Atlasctl.Seed.Command.{agrees}
use atlas_idp.Atlasctl.Gitops.{
  is_private, Places, Paths, resolve_paths, Copied, done, failed, copied,
}
use atlas_idp.Atlasctl.Gitops.Walk.{Copied-cases}
use atlas_idp.Atlasctl.Gitops.Steps.{failed≢done, deeper≢done}
use atlas_idp.Atlasctl.Enable.{
  EnableFlags, refusal, is_found, enable_workload, gateway_yaml, enable_asked, enable_now,
  enable_rest, enable_files, git_commit_and_maybe_push, push_if, run_seed, on_disk,
}
use atlas_idp.Atlasctl.Gitops.Shared.{is_route, IsShared-at}
use atlas_idp.Atlasctl.Gitops.Mirror.{there}
use atlas_idp.Atlasctl.Enable.Guard.{refusal-keeps}
use atlas_idp.Atlasctl.Enable.Files.{IsLaidOut, IsPublished, enable_files-IsPublished}

Ran-cases :
    (r : Ran)
    → ((out : Bytes) × (r ≡ printed out)) ⊎ ((out : Bytes) × (e : Bytes) × (r ≡ broke out e))
Ran-cases (printed out) = inl (out, refl)
Ran-cases (broke out e) = inr (out, e, refl)

-- a run behind a dry-run flag and a question
if_asked :
    {W : Type 0} (run : Act W Copied) (P : W → Type 0) (dry ok : Bool) (w : W) (e : Bytes)
    → dry ≡ false
    → ((run w).0 ≡ done → P (run w).1)
    → ((if dry then pure done else if ok then run else pure (failed e)) w).0 ≡ done
    → P ((if dry then pure done else if ok then run else pure (failed e)) w).1
if_asked run P true ok w e wet gives h = cc
if_asked run P false true w e wet gives h = gives h
if_asked run P false false w e wet gives h = absurd (failed≢done _ h)

module _ (d : Disk) (l : DiskLaws d) (git : List Bytes → Act d.World Ran)
    (git_keeps : (args : List Bytes) (w : d.World) → l.tree (git args w).1 ≡ l.tree w) where
  pub push_if-keeps : (push : Bool) (w : d.World) → l.tree (push_if d git push w).1 ≡ l.tree w
  unfolding push_if
  push_if-keeps true w = ground (arith, git_keeps (codes "push" ∷ []) w)
  push_if-keeps false w = refl

  git_commit-keeps :
      (app group : Bytes) (p : Paths) (push : Bool) (w : d.World)
      → l.tree (git_commit_and_maybe_push d git app group p push w).1 ≡ l.tree w
  unfolding git_commit_and_maybe_push
  git_commit-keeps app group p push w =
      let (route, w₁) = d.stat p.gateway_route_file w in
      let add =
        (codes "add" ∷ spelled p.gitops_file ∷ spelled p.gitops_resources ∷ [])
        ++ ((if is_found route
              then spelled p.gateway_file ∷ spelled p.gateway_route_file ∷ []
              else [])
            ++ codes "-A" ∷ []) in
      let commit =
        codes "commit"
        ∷ codes "-m"
        ∷ (codes "enable(workloads): promote " ++ (group ++ (codes "/" ++ app)))
        ∷ [] in
      let w₂ = (git add w₁).1 in
      let kept = git_keeps add w₁ ∙ l.stat_keeps p.gateway_route_file w in
      elim (Ran-cases ((git add w₁).0)) [
        | inr (out, e, bad) ↦ rw (git_commit_and_maybe_push, ◌>>=◌, bad) kept
        | inl (out, good) ↦
            rw (git_commit_and_maybe_push, ◌>>=◌, good)
              (push_if-keeps push (git commit w₂).1 ∙ git_keeps commit w₂ ∙ kept)
      ]

  module _ (m : Machine) (flags : EnableFlags) where
    sync_if-keeps :
        (group app : Bytes) (p : Paths) (w : d.World) (v : m.World)
        → l.tree
            ((if flags.sync
                then (do
                  pushed ← on_disk d git m (git_commit_and_maybe_push d git app group p flags.push)
                  pure (copied pushed))
                else pure done)
              (w, v)).1.0
          ≡ l.tree w
    sync_if-keeps group app p w v = elim (Bool-cases flags.sync) [
      | inl sync ↦ rw sync (git_commit-keeps app group p flags.push w)
      | inr stay ↦ rw stay refl
    ]

    enable_rest-keeps :
        (group app : Bytes) (p : Paths) (w : d.World) (v : m.World)
        → l.tree (enable_rest d git m flags group app p (w, v)).1.0 ≡ l.tree w
    unfolding enable_rest run_seed
    enable_rest-keeps group app p w v = elim (Bool-cases flags.seed) [
      | inr plain ↦ rw (enable_rest, ◌>>=◌, plain) (sync_if-keeps group app p w v)
      | inl seed ↦
          let (e, v') = run_seed m group app (spelled p.workload_dir) flags v in
          elim (Option-cases ((run_seed m group app (spelled p.workload_dir) flags v).0)) [
            | inl fit ↦ rw (enable_rest, ◌>>=◌, seed, fit) (sync_if-keeps group app p w v')
            | inr (why, bad) ↦ rw (enable_rest, ◌>>=◌, seed, bad) refl
          ]
    ]

    enable_now-IsPublished :
        (depth : ℕ) (group app : Bytes) (has_gateway : Bool) (p : Paths) (w : d.World) (v : m.World)
        → IsLaidOut p
        → (enable_now d git m depth flags group app has_gateway p (w, v)).0 ≡ done
        → IsPublished p
            (l.tree w)
            (l.tree (enable_now d git m depth flags group app has_gateway p (w, v)).1.0)
    unfolding enable_now
    enable_now-IsPublished depth group app has_gateway p w v o h =
        let w₁ = (enable_files d depth app has_gateway p w).1 in
        elim (Copied-cases ((enable_files d depth app has_gateway p w).0)) [
          | inr (inl low) ↦ absurd (deeper≢done (rw (enable_now, ◌>>=◌, low) at h))
          | inr (inr (why, bad)) ↦ absurd (failed≢done _ (rw (enable_now, ◌>>=◌, bad) at h))
          | inl good ↦
              rw (enable_now, ◌>>=◌, good, enable_rest-keeps group app p w₁ v)
                (enable_files-IsPublished d l depth app has_gateway p w o good)
        ]

    IsPublished-from : (p : Paths) (a a' b : Tree) → a' ≡ a → IsPublished p a' b → IsPublished p a b
    IsPublished-from p a a' b same h = rw same at h

    -- the tests, which --force leaves out
    if_refused :
        (P : d.World × m.World → Type 0) (force : Bool) (p : Paths) (w : d.World) (v : m.World)
        (rest : Act (d.World × m.World) Copied)
        → ((u : d.World) → l.tree u ≡ l.tree w → (rest (u, v)).0 ≡ done → P (rest (u, v)).1)
        → let run : Act (d.World × m.World) Copied = (do
          refused ← if force then pure none else on_disk d git m (refusal d p)
          elim refused [ some e ↦ pure (failed e) | none ↦ rest ]) in
          (run (w, v)).0 ≡ done → P (run (w, v)).1
    if_refused P true p w v rest gives h = gives w refl h
    if_refused P false p w v rest gives h =
        let w₁ = (refusal d p w).1 in
        elim (Option-cases ((refusal d p w).0)) [
          | inl passed ↦
              rw (◌>>=◌, passed) (gives w₁ (refusal-keeps d l p w) (rw (◌>>=◌, passed) at h))
          | inr (e, refused) ↦ absurd (failed≢done _ (rw (◌>>=◌, refused) at h))
        ]

    enable_asked-IsPublished :
        (depth : ℕ) (group app : Bytes) (p : Paths) (w : d.World) (v : m.World)
        → flags.dry_run ≡ false
        → IsLaidOut p
        → (enable_asked d git m depth flags group app p (w, v)).0 ≡ done
        → IsPublished p
            (l.tree w)
            (l.tree (enable_asked d git m depth flags group app p (w, v)).1.0)
    unfolding enable_asked
    enable_asked-IsPublished depth group app p w v wet o h =
        let (gateway, w₁) = d.stat (gateway_yaml d p) w in
        let now = enable_now d git m depth flags group app (is_found gateway) p in
        if_asked now (λ x. IsPublished p (l.tree w) (l.tree x.0)) flags.dry_run
          (flags.skip_confirm || agrees flags.answer) (w₁, v) (codes "aborted") wet
          (λ ended.
            IsPublished-from p (l.tree w) (l.tree w₁) (l.tree (now (w₁, v)).1.0)
              (l.stat_keeps (gateway_yaml d p) w)
              (enable_now-IsPublished depth group app (is_found gateway) p w₁ v o ended))
          h

    -- the whole command
    enable_workload-IsPublished :
        (depth : ℕ) (places : Places) (group app : Bytes) (w : d.World) (v : m.World)
        → flags.dry_run ≡ false
        → IsLaidOut (resolve_paths (record { group = group; app = app }) places)
        → (enable_workload d git m depth flags places group app (w, v)).0 ≡ done
        → IsPublished
            (resolve_paths (record { group = group; app = app }) places)
            (l.tree w)
            (l.tree (enable_workload d git m depth flags places group app (w, v)).1.0)
    unfolding enable_workload
    enable_workload-IsPublished depth places group app w v wet o h =
        let p = resolve_paths (record { group = group; app = app }) places in
        if_refused (λ x. IsPublished p (l.tree w) (l.tree x.0)) flags.force p w v
          (enable_asked d git m depth flags group app p)
          (λ u same ended.
            IsPublished-from p (l.tree w) (l.tree u)
              (l.tree (enable_asked d git m depth flags group app p (u, v)).1.0) same
              (enable_asked-IsPublished depth group app p u v wet o ended))
          h

    -- If `atlasctl enable` reports no error, is no dry run and the workload's paths are laid out
    -- apart, then the GitOps file is the workload's app.yaml and each entry of the workload's
    -- directory that is not passed over is in the resources directory, all as they were when the
    -- command started, with whatever other flags, if git changes no file.
    pub enable-publishes :
        (depth : ℕ) (places : Places) (group app name : Bytes) (rel : FilePath)
        (manifest text : Bytes) (w : d.World) (v : m.World)
        → let p = resolve_paths (record { group = group; app = app }) places in
          let ended = enable_workload d git m depth flags places group app (w, v) in
          flags.dry_run ≡ false
          → IsLaidOut p
          → ended.0 ≡ done
          → l.tree w (child p.workload_dir (codes "app.yaml")) ≡ some (file manifest)
          → is_private name ≡ false
          → is_route name rel ≡ false
          → l.tree w (rel ++ name ∷ p.workload_dir) ≡ some (file text)
          → (l.tree ended.1.0 p.gitops_file ≡ some (file manifest))
            × (l.tree ended.1.0 (rel ++ name ∷ p.gitops_resources) ≡ some (file text))
    enable-publishes depth places group app name rel manifest text w v wet o h first shown kept
          here =
        let p = resolve_paths (record { group = group; app = app }) places in
        let b = l.tree (enable_workload d git m depth flags places group app (w, v)).1.0 in
        let published = enable_workload-IsPublished depth places group app w v wet o h in
        (
          published.manifest manifest first,
          IsShared-at p.workload_dir p.gitops_resources (l.tree w) name b rel text
              (published.resources name (there d l p.workload_dir rel name text w here)) shown kept
              here,
        )
