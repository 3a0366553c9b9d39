-- ===== src/Atlasctl/Disable/Effect.antt =====
-- What the command of tools/atlasctl/cmd/disable.go removes, and what it keeps.
use atlas_idp.Common.{◌≡◌, ◌≢◌, ◌⊎◌, refl, ap, ◌∙◌, Bool, true, false, none, [], ◌∷◌, arith}
use atlas_idp.Atlasctl.Config.{parent}
use atlas_idp.Atlasctl.Disk.{FilePath, Disk}
use atlas_idp.Atlasctl.Disk.Paths.{IsUnder}
use atlas_idp.Atlasctl.Disk.Laws.{Tree, DiskLaws}
use atlas_idp.Atlasctl.Gitops.{Paths, remove_paths, remove_empty_dir}
use atlas_idp.Atlasctl.Disable.{remove_resources, remove_route}

-- A path that disabling a workload may remove.
abbrev pub IsCleared : Paths → FilePath → Type 0
IsCleared p q =
    (q ≡ p.gitops_file)
    ⊎ (IsUnder p.gitops_resources q
        ⊎ ((q ≡ parent p.gitops_resources) ⊎ ((q ≡ p.gateway_route_file) ⊎ (q ≡ p.gitops_dir))))

module _ (d : Disk) (l : DiskLaws d) where
  -- an empty directory may go, and nothing else
  pub remove_empty_dir-frame :
      (dir q : FilePath) (w : d.World)
      → q ≢ dir
      → l.tree (remove_empty_dir d dir w).1 q ≡ l.tree w q
  unfolding remove_empty_dir
  remove_empty_dir-frame dir q w ne =
      let kept = ap (λ (t : Tree). t q) (l.read_dir_keeps dir w) in
      ground (arith, kept, l.remove_frame dir q (d.read_dir dir w).1 ne)

  pub remove_empty_dir-gone :
      (dir q : FilePath) (w : d.World)
      → l.tree w q ≡ none
      → l.tree (remove_empty_dir d dir w).1 q ≡ none
  unfolding remove_empty_dir
  remove_empty_dir-gone dir q w h =
      let kept = ap (λ (t : Tree). t q) (l.read_dir_keeps dir w) ∙ h in
      ground (arith, kept, l.remove_gone dir q (d.read_dir dir w).1 kept)

  remove_path-frame :
      (p q : FilePath) (w : d.World)
      → ¬ IsUnder p q
      → l.tree (remove_paths d (p ∷ []) w).1 q ≡ l.tree w q
  unfolding remove_paths
  remove_path-frame p q w out = ground (arith, l.remove_all_frame p q w out)

  remove_path-gone :
      (p q : FilePath) (w : d.World)
      → l.tree w q ≡ none
      → l.tree (remove_paths d (p ∷ []) w).1 q ≡ none
  unfolding remove_paths
  remove_path-gone p q w h = ground (arith, l.remove_all_gone p q w h)

  pub remove_resources-frame :
      (p : Paths) (q : FilePath) (w : d.World)
      → ¬ IsUnder p.gitops_resources q
      → q ≢ parent p.gitops_resources
      → l.tree (remove_resources d p w).1 q ≡ l.tree w q
  unfolding remove_resources
  remove_resources-frame p q w out ne =
      let w₁ = (remove_paths d (p.gitops_resources ∷ []) w).1 in
      let w₂ = (d.stat p.gitops_resources w₁).1 in
      remove_empty_dir-frame (parent p.gitops_resources) q w₂ ne
      ∙ ap (λ (t : Tree). t q) (l.stat_keeps p.gitops_resources w₁)
      ∙ remove_path-frame p.gitops_resources q w out

  pub remove_resources-gone :
      (p : Paths) (q : FilePath) (w : d.World)
      → l.tree w q ≡ none
      → l.tree (remove_resources d p w).1 q ≡ none
  unfolding remove_resources
  remove_resources-gone p q w h =
      let w₁ = (remove_paths d (p.gitops_resources ∷ []) w).1 in
      let w₂ = (d.stat p.gitops_resources w₁).1 in
      remove_empty_dir-gone (parent p.gitops_resources) q w₂ (
        ap (λ (t : Tree). t q) (l.stat_keeps p.gitops_resources w₁)
        ∙ remove_path-gone p.gitops_resources q w h)

  pub remove_route-frame :
      (has_gateway : Bool) (p : Paths) (q : FilePath) (w : d.World)
      → q ≢ p.gateway_route_file
      → l.tree (remove_route d has_gateway p w).1 q ≡ l.tree w q
  unfolding remove_route
  remove_route-frame true p q w ne = ground (arith, l.remove_frame p.gateway_route_file q w ne)
  remove_route-frame false p q w ne = refl

  pub remove_route-gone :
      (has_gateway : Bool) (p : Paths) (q : FilePath) (w : d.World)
      → l.tree w q ≡ none
      → l.tree (remove_route d has_gateway p w).1 q ≡ none
  unfolding remove_route
  remove_route-gone true p q w h = ground (arith, l.remove_gone p.gateway_route_file q w h)
  remove_route-gone false p q w h = h

  pub remove_route-done :
      (p : Paths) (w : d.World)
      → (remove_route d true p w).0 ≡ none
      → l.tree (remove_route d true p w).1 p.gateway_route_file ≡ none
  unfolding remove_route
  remove_route-done p w h = ground (arith, l.remove_done p.gateway_route_file w)
