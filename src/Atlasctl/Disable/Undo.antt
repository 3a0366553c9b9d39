-- ===== src/Atlasctl/Disable/Undo.antt =====
-- The command of tools/atlasctl/cmd/disable.go as a whole: what a run that reports no error has
-- undone, and that no run changes anything else.
use atlas_idp.Common.{
  false, ◌≡◌, ◌≢◌, refl, ap, ◌∙◌, inl, inr, Bool, true, none, some, Bytes, ◌>>=◌, Option-cases,
  some≢none,
}
use atlas_idp.Atlasctl.Gateway.{Applied, apply_gateway_listener}
use atlas_idp.Atlasctl.Kube.{fine, Outcome-cases}
use atlas_idp.Atlasctl.Disk.{FilePath, Disk}
use atlas_idp.Atlasctl.Disk.Laws.{file, DiskLaws}
use atlas_idp.Atlasctl.Gitops.{Paths, remove_empty_dir}
use atlas_idp.Atlasctl.Gitops.Listener.{apply_listener}
use atlas_idp.Atlasctl.Gitops.Listener.Refine.{apply_listener-frame, apply_listener-refines}
use atlas_idp.Atlasctl.Disable.{old_listener, remove_resources, remove_route, disable_files}
use atlas_idp.Atlasctl.Disable.Effect.{
  IsCleared, remove_empty_dir-frame, remove_empty_dir-gone, remove_resources-frame,
  remove_resources-gone, remove_route-frame, remove_route-gone, remove_route-done,
}

module _ (d : Disk) (l : DiskLaws d) (app : Bytes) (p : Paths) where
  -- the worlds between the steps of the removal
  abbrev after_listener : d.World → d.World
  after_listener w = (apply_listener d p.gateway_file (old_listener app) w).1

  abbrev after_manifest : d.World → d.World
  after_manifest w = (d.remove p.gitops_file (after_listener w)).1

  abbrev after_resources : d.World → d.World
  after_resources w = (remove_resources d p (after_manifest w)).1

  abbrev after_route : Bool → d.World → d.World
  after_route has_gateway w = (remove_route d has_gateway p (after_resources w)).1

  -- what has succeeded when the removal reports no error
  disable_files-runs :
      (has_gateway : Bool) (w : d.World)
      → (disable_files d app has_gateway p w).0 ≡ none
      → (r : Applied) × ((apply_listener d p.gateway_file (old_listener app) w).0 ≡ fine r)
        × ((d.remove p.gitops_file (after_listener w)).0 ≡ none)
        × ((remove_route d has_gateway p (after_resources w)).0 ≡ none)
        × ((disable_files d app has_gateway p w).1
            ≡ (remove_empty_dir d p.gitops_dir (after_route has_gateway w)).1)
  unfolding disable_files
  disable_files-runs has_gateway w h =
      elim (Outcome-cases ((apply_listener d p.gateway_file (old_listener app) w).0)) [
        | inl (e, bad) ↦ absurd (some≢none (rw (disable_files, ◌>>=◌, bad) at h))
        | inr (r, good) ↦ elim (Option-cases ((d.remove p.gitops_file (after_listener w)).0)) [
          | inr (e, bad) ↦ absurd (some≢none (rw (disable_files, ◌>>=◌, good, bad) at h))
          | inl gone ↦ elim (Option-cases ((remove_route d has_gateway p (after_resources w)).0)) [
            | inr (e, bad) ↦ absurd (some≢none (rw (disable_files, ◌>>=◌, good, gone, bad) at h))
            | inl clear ↦ (r, good, gone, clear, rw (disable_files, ◌>>=◌, good, gone, clear) refl)
          ]
        ]
      ]

  module _ (q : FilePath) (w : d.World) (out : ¬ IsCleared p q) where
    -- what is not cleared stays through each step behind the listener's
    step_manifest : l.tree (after_manifest w) q ≡ l.tree (after_listener w) q
    step_manifest = l.remove_frame p.gitops_file q (after_listener w) (λ same. out (inl same))

    step_resources : l.tree (after_resources w) q ≡ l.tree (after_listener w) q
    step_resources =
        remove_resources-frame d l p q (after_manifest w) (λ under. out (inr (inl under)))
          (λ same. out (inr (inr (inl same))))
        ∙ step_manifest

    step_route :
        (has_gateway : Bool) → l.tree (after_route has_gateway w) q ≡ l.tree (after_listener w) q
    step_route has_gateway =
        remove_route-frame d l has_gateway p q (after_resources w)
          (λ same. out (inr (inr (inr (inl same)))))
        ∙ step_resources

    -- whether the removal succeeds or not
    disable_files-keeps :
        (has_gateway : Bool)
        → l.tree (disable_files d app has_gateway p w).1 q ≡ l.tree (after_listener w) q
    unfolding disable_files
    disable_files-keeps has_gateway =
        elim (Outcome-cases ((apply_listener d p.gateway_file (old_listener app) w).0)) [
          | inl (e, bad) ↦ rw (disable_files, ◌>>=◌, bad) refl
          | inr (r, good) ↦ elim (Option-cases ((d.remove p.gitops_file (after_listener w)).0)) [
            | inr (e, bad) ↦ rw (disable_files, ◌>>=◌, good, bad) step_manifest
            | inl gone ↦
                elim (Option-cases ((remove_route d has_gateway p (after_resources w)).0)) [
                  | inr (e, bad) ↦
                      rw (disable_files, ◌>>=◌, good, gone, bad) (step_route has_gateway)
                  | inl clear ↦
                      rw (disable_files, ◌>>=◌, good, gone, clear)
                        (remove_empty_dir-frame d l p.gitops_dir q (after_route has_gateway w)
                            (λ same. out (inr (inr (inr (inr same)))))
                          ∙ step_route has_gateway)
                ]
          ]
        ]

  -- every other path but the gateway file
  pub disable_files-frame :
      (has_gateway : Bool) (q : FilePath) (w : d.World)
      → ¬ IsCleared p q
      → q ≢ p.gateway_file
      → l.tree (disable_files d app has_gateway p w).1 q ≡ l.tree w q
  disable_files-frame has_gateway q w out ne =
      disable_files-keeps q w out has_gateway
      ∙ apply_listener-frame d l p.gateway_file q (old_listener app) w ne

  pub disable_files-listener :
      (has_gateway : Bool) (content : Bytes) (w : d.World)
      → ¬ IsCleared p p.gateway_file
      → (d.read_file p.gateway_file w).0 ≡ fine content
      → (disable_files d app has_gateway p w).0 ≡ none
      → l.tree (disable_files d app has_gateway p w).1 p.gateway_file
        ≡ some (file (apply_gateway_listener content (old_listener app)).1)
  disable_files-listener has_gateway content w out read h =
      let (r, good, _, _, _) = disable_files-runs has_gateway w h in
      disable_files-keeps p.gateway_file w out has_gateway
      ∙ (apply_listener-refines d l p.gateway_file (old_listener app) content r w read good).1

  pub disable_files-manifest :
      (has_gateway : Bool) (w : d.World)
      → (disable_files d app has_gateway p w).0 ≡ none
      → l.tree (disable_files d app has_gateway p w).1 p.gitops_file ≡ none
  disable_files-manifest has_gateway w h =
      let (_, _, gone, _, same) = disable_files-runs has_gateway w h in
      ap (λ u. l.tree u p.gitops_file) same
      ∙ remove_empty_dir-gone d l p.gitops_dir p.gitops_file (after_route has_gateway w) (
          remove_route-gone d l has_gateway p p.gitops_file (after_resources w) (
            remove_resources-gone d l p p.gitops_file (after_manifest w)
              (l.remove_done p.gitops_file (after_listener w) gone)))

  pub disable_files-route :
      (w : d.World)
      → (disable_files d app true p w).0 ≡ none
      → l.tree (disable_files d app true p w).1 p.gateway_route_file ≡ none
  disable_files-route w h =
      let (_, _, _, clear, same) = disable_files-runs true w h in
      ap (λ u. l.tree u p.gateway_route_file) same
      ∙ remove_empty_dir-gone d l p.gitops_dir p.gateway_route_file (after_route true w)
          (remove_route-done d l p (after_resources w) clear)

  pub disable_files-no_route :
      (w : d.World)
      → l.tree w p.gateway_route_file ≡ none
      → p.gateway_route_file ≢ p.gateway_file
      → (disable_files d app false p w).0 ≡ none
      → l.tree (disable_files d app false p w).1 p.gateway_route_file ≡ none
  disable_files-no_route w absent ne h =
      let route = p.gateway_route_file in
      let (_, _, _, _, same) = disable_files-runs false w h in
      ap (λ u. l.tree u route) same
      ∙ remove_empty_dir-gone d l p.gitops_dir route (after_route false w) (
          remove_route-gone d l false p route (after_resources w) (
            remove_resources-gone d l p route (after_manifest w) (
              l.remove_gone p.gitops_file route (after_listener w)
                (apply_listener-frame d l p.gateway_file route (old_listener app) w ne ∙ absent))))
