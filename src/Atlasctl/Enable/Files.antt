-- ===== src/Atlasctl/Enable/Files.antt =====
-- What the command of tools/atlasctl/cmd/enable.go has written when it reports no error.
use atlas_idp.Common.{
  ℕ, ◌≡◌, ◌≢◌, refl, sym, ◌∙◌, inl, inr, Bool, true, false, none, some, [], ◌∷◌, ◌++◌, append_assoc,
  Bytes, codes, ◌>>=◌, pure, Option-cases, some≢none, if◌then◌else◌,
}
use atlas_idp.Atlasctl.Config.{parent}
use atlas_idp.Atlasctl.Kube.{Outcome-cases}
use atlas_idp.Atlasctl.Disk.{FilePath, child, Disk}
use atlas_idp.Atlasctl.Disk.Paths.{IsUnder, Apart, Apart-under}
use atlas_idp.Atlasctl.Disk.Laws.{Tree, file, DiskLaws}
use atlas_idp.Atlasctl.Gitops.{Paths, done, copy_workload_manifest, sync_resources}
use atlas_idp.Atlasctl.Gitops.Walk.{mkdir_all-Frame, Copied-cases}
use atlas_idp.Atlasctl.Gitops.Copy.{Kept, Kept-trans, Frame-Kept}
use atlas_idp.Atlasctl.Gitops.Steps.{failed≢done, deeper≢done}
use atlas_idp.Atlasctl.Gitops.Sync.{copy_named-frame, sync_resources-Frame}
use atlas_idp.Atlasctl.Gitops.Shared.{
  IsShared, IsShared-Kept, copy_named-done, sync_resources-IsShared,
}
use atlas_idp.Atlasctl.Gitops.Listener.{apply_listener}
use atlas_idp.Atlasctl.Gitops.Listener.Refine.{apply_listener-frame}
use atlas_idp.Atlasctl.Enable.{
  gateway_yaml, new_listener, enable_gateway, enable_resources, enable_files,
}

-- How the paths of a workload lie to each other.
pub record IsLaidOut (p : Paths) : Type 0 where
  pub group_apart : Apart p.workload_dir p.gitops_dir
  pub manifest_in : IsUnder p.gitops_dir p.gitops_file
  pub manifest_below : parent p.gitops_file ≡ p.gitops_dir
  pub resources_in : IsUnder p.gitops_dir p.gitops_resources
  pub manifest_apart : Apart p.gitops_file p.gitops_resources
  pub manifest_listener : p.gitops_file ≢ p.gateway_file
  pub manifest_route : p.gitops_file ≢ p.gateway_route_file
  pub resources_listener : ¬ IsUnder p.gitops_resources p.gateway_file
  pub resources_route : ¬ IsUnder p.gitops_resources p.gateway_route_file

-- The manifest is app.yaml, and the resources are shared.
pub record IsPublished (p : Paths) (a b : Tree) : Type 0 where
  pub manifest :
      (content : Bytes)
      → a (child p.workload_dir (codes "app.yaml")) ≡ some (file content)
      → b p.gitops_file ≡ some (file content)
  pub resources :
      (name : Bytes)
      → a (name ∷ p.workload_dir) ≢ none
      → IsShared p.workload_dir p.gitops_resources a name b

-- What keeps the files of a directory keeps it shared.
IsShared-then :
    (src dst : FilePath) (a : Tree) (name : Bytes) (b c : Tree)
    → ((q : FilePath) (content : Bytes)
        → IsUnder dst q
        → b q ≡ some (file content)
        → c q ≡ some (file content))
    → IsShared src dst a name b
    → IsShared src dst a name c
IsShared-then src dst a name b c keep s go = (
  λ other rel content h.
      keep (rel ++ name ∷ dst) content (rel ++ name ∷ [], sym (append_assoc rel (name ∷ []) dst))
        ((s go).0 other rel content h),
  λ inner ok_name rel content h.
      keep (rel ++ inner ∷ name ∷ dst) content
        (rel ++ inner ∷ name ∷ [], sym (append_assoc rel (inner ∷ name ∷ []) dst))
        ((s go).1 inner ok_name rel content h),
)

module _ (d : Disk) (l : DiskLaws d) where
  copy_workload_manifest-keeps :
      (src dst q : FilePath) (content : Bytes) (w : d.World)
      → q ≢ dst
      → l.tree w q ≡ some (file content)
      → l.tree (copy_workload_manifest d src dst w).1 q ≡ some (file content)
  unfolding copy_workload_manifest
  copy_workload_manifest-keeps src dst q content w ne here =
      let w₁ = (d.mkdir_all (parent dst) w).1 in
      let here₁ = l.mkdir_all_keeps (parent dst) q w (λ gone. some≢none (sym here ∙ gone)) ∙ here in
      elim (Option-cases ((d.mkdir_all (parent dst) w).0)) [
        | inr (e, bad) ↦ rw (copy_workload_manifest, ◌>>=◌, bad) here₁
        | inl made ↦
            rw (copy_workload_manifest, ◌>>=◌, made) (copy_named-frame d l src dst q w₁ ne ∙ here₁)
      ]

  -- a manifest that was copied is at its place
  copy_workload_manifest-done :
      (src dst : FilePath) (content : Bytes) (w : d.World)
      → (copy_workload_manifest d src dst w).0 ≡ none
      → l.tree w src ≡ some (file content)
      → l.tree (copy_workload_manifest d src dst w).1 dst ≡ some (file content)
  unfolding copy_workload_manifest
  copy_workload_manifest-done src dst content w h here =
      let w₁ = (d.mkdir_all (parent dst) w).1 in
      let here₁ =
        l.mkdir_all_keeps (parent dst) src w (λ gone. some≢none (sym here ∙ gone)) ∙ here in
      elim (Option-cases ((d.mkdir_all (parent dst) w).0)) [
        | inr (e, bad) ↦ absurd (some≢none (rw (copy_workload_manifest, ◌>>=◌, bad) at h))
        | inl made ↦
            rw (copy_workload_manifest, ◌>>=◌, made)
              (copy_named-done d l src dst w₁ (rw (copy_workload_manifest, ◌>>=◌, made) at h) []
                content here₁)
      ]

  -- the gateway part keeps every file but its own two
  enable_gateway-keeps :
      (app : Bytes) (p : Paths) (q : FilePath) (content : Bytes) (w : d.World)
      → q ≢ p.gateway_route_file
      → q ≢ p.gateway_file
      → l.tree w q ≡ some (file content)
      → l.tree (enable_gateway d app p w).1 q ≡ some (file content)
  unfolding enable_gateway
  enable_gateway-keeps app p q content w ne ne' here =
      let w₁ = (d.mkdir_all p.gateway_routes_dir w).1 in
      let here₁ =
        l.mkdir_all_keeps p.gateway_routes_dir q w (λ gone. some≢none (sym here ∙ gone)) ∙ here in
      let w₂ = (copy_workload_manifest d (gateway_yaml d p) p.gateway_route_file w₁).1 in
      let here₂ =
        copy_workload_manifest-keeps (gateway_yaml d p) p.gateway_route_file q content w₁ ne
          here₁ in
      let here₃ = apply_listener-frame d l p.gateway_file q (new_listener app) w₂ ne' ∙ here₂ in
      elim (Option-cases ((d.mkdir_all p.gateway_routes_dir w).0)) [
        | inr (e, bad) ↦ rw (enable_gateway, ◌>>=◌, bad) here₁
        | inl made ↦
            elim (Option-cases
              ((copy_workload_manifest d (gateway_yaml d p) p.gateway_route_file w₁).0)) [
                | inr (e, bad) ↦ rw (enable_gateway, ◌>>=◌, made, bad) here₂
                | inl put ↦
                    elim (Outcome-cases
                      ((apply_listener d p.gateway_file (new_listener app) w₂).0)) [
                        | inl (e, bad) ↦ rw (enable_gateway, ◌>>=◌, made, put, bad) here₃
                        | inr (r, good) ↦ rw (enable_gateway, ◌>>=◌, made, put, good) here₃
                      ]
              ]
      ]

  gateway_if-keeps :
      (app : Bytes) (has_gateway : Bool) (p : Paths) (q : FilePath) (content : Bytes) (w : d.World)
      → q ≢ p.gateway_route_file
      → q ≢ p.gateway_file
      → l.tree w q ≡ some (file content)
      → l.tree ((if has_gateway then enable_gateway d app p else pure done) w).1 q
        ≡ some (file content)
  gateway_if-keeps app true p q content w ne ne' here =
      enable_gateway-keeps app p q content w ne ne' here
  gateway_if-keeps app false p q content w ne ne' here = here

  enable_resources-IsPublished :
      (depth : ℕ) (app : Bytes) (has_gateway : Bool) (p : Paths) (w : d.World)
      → IsLaidOut p
      → (enable_resources d depth app has_gateway p w).0 ≡ done
      → ((content : Bytes)
          → l.tree w p.gitops_file ≡ some (file content)
          → l.tree (enable_resources d depth app has_gateway p w).1 p.gitops_file
            ≡ some (file content))
        × ((name : Bytes)
            → l.tree w (name ∷ p.workload_dir) ≢ none
            → IsShared p.workload_dir p.gitops_resources
                (l.tree w)
                name
                (l.tree (enable_resources d depth app has_gateway p w).1))
  unfolding enable_resources
  enable_resources-IsPublished depth app has_gateway p w o h =
      let w₁ = (sync_resources d depth p.workload_dir p.gitops_resources w).1 in
      elim (Copied-cases ((sync_resources d depth p.workload_dir p.gitops_resources w).0)) [
        | inr (inl low) ↦ absurd (deeper≢done (rw (enable_resources, ◌>>=◌, low) at h))
        | inr (inr (why, bad)) ↦ absurd (failed≢done _ (rw (enable_resources, ◌>>=◌, bad) at h))
        | inl synced ↦
            rw (enable_resources, ◌>>=◌, synced)
              (
                λ content here.
                    gateway_if-keeps app has_gateway p p.gitops_file content w₁ o.manifest_route
                      o.manifest_listener
                      (sync_resources-Frame d l depth p.workload_dir p.gitops_resources w
                          p.gitops_file o.manifest_apart.1 o.manifest_apart.0
                        ∙ here),
                λ name there.
                    IsShared-then p.workload_dir p.gitops_resources (l.tree w) name (l.tree w₁)
                      (l.tree ((if has_gateway then enable_gateway d app p else pure done) w₁).1)
                      (λ q content under here.
                        gateway_if-keeps app has_gateway p q content w₁
                          (λ same. o.resources_route (rw same at under))
                          (λ same. o.resources_listener (rw same at under)) here)
                      (sync_resources-IsShared d l depth p.workload_dir p.gitops_resources w name
                        (Apart-under p.workload_dir p.gitops_dir p.gitops_resources o.group_apart
                          o.resources_in)
                        synced there),
              )
      ]

  -- copying the manifest keeps what is apart from the directory it goes to
  copy_workload_manifest-Kept :
      (src dst dir : FilePath) (w : d.World)
      → Apart dir (parent dst)
      → Apart dir dst
      → Kept dir (l.tree w) (l.tree (copy_workload_manifest d src dst w).1)
  unfolding copy_workload_manifest
  copy_workload_manifest-Kept src dst dir w apart apart' q under =
      let w₁ = (d.mkdir_all (parent dst) w).1 in
      let made' =
        Frame-Kept dir (parent dst) (l.tree w) (l.tree w₁) apart
          (mkdir_all-Frame d l (parent dst) w) q under in
      elim (Option-cases ((d.mkdir_all (parent dst) w).0)) [
        | inr (e, bad) ↦ rw (copy_workload_manifest, ◌>>=◌, bad) made'
        | inl made ↦
            rw (copy_workload_manifest, ◌>>=◌, made)
              (copy_named-frame d l src dst q w₁ (λ same. apart'.0 (rw same at under)) ∙ made')
      ]

  pub enable_files-IsPublished :
      (depth : ℕ) (app : Bytes) (has_gateway : Bool) (p : Paths) (w : d.World)
      → IsLaidOut p
      → (enable_files d depth app has_gateway p w).0 ≡ done
      → IsPublished p (l.tree w) (l.tree (enable_files d depth app has_gateway p w).1)
  unfolding enable_files
  enable_files-IsPublished depth app has_gateway p w o h =
      let from = child p.workload_dir (codes "app.yaml") in
      let w₁ = (d.mkdir_all p.gitops_dir w).1 in
      let w₂ = (copy_workload_manifest d from p.gitops_file w₁).1 in
      let apart =
        Apart-under p.workload_dir p.gitops_dir p.gitops_file o.group_apart o.manifest_in in
      let kept =
        Kept-trans p.workload_dir (l.tree w) (l.tree w₁) (l.tree w₂)
          (Frame-Kept p.workload_dir p.gitops_dir (l.tree w) (l.tree w₁) o.group_apart
            (mkdir_all-Frame d l p.gitops_dir w))
          (copy_workload_manifest-Kept from p.gitops_file p.workload_dir w₁
            (rw o.manifest_below o.group_apart) apart) in
      elim (Option-cases ((d.mkdir_all p.gitops_dir w).0)) [
        | inr (e, bad) ↦ absurd (failed≢done _ (rw (enable_files, ◌>>=◌, bad) at h))
        | inl made ↦ elim (Option-cases ((copy_workload_manifest d from p.gitops_file w₁).0)) [
          | inr (e, bad) ↦ absurd (failed≢done _ (rw (enable_files, ◌>>=◌, made, bad) at h))
          | inl put ↦
              let rest =
                enable_resources-IsPublished depth app has_gateway p w₂ o
                  (rw (enable_files, ◌>>=◌, made, put) at h) in
              rw (enable_files, ◌>>=◌, made, put)
                (record {
                  manifest = λ content here. rest.0 content (
                      copy_workload_manifest-done from p.gitops_file content w₁ put (
                        l.mkdir_all_keeps p.gitops_dir from w (λ gone. some≢none (sym here ∙ gone))
                        ∙ here));
                  resources = λ name there.
                      IsShared-Kept p.workload_dir p.gitops_resources (l.tree w) (l.tree w₂) name
                        (l.tree (enable_resources d depth app has_gateway p w₂).1) kept
                        (rest.1 name (λ gone.
                          there (sym (kept (name ∷ p.workload_dir) (name ∷ [], refl)) ∙ gone)));
                })
        ]
      ]
