-- ===== src/Atlasctl/Gitops/Infra.antt =====
-- What `syncInfraResources` of tools/atlasctl/pkg/gitops/gitops.go has copied when it reports no
-- error.
use atlas_idp.Common.{
  ℕ, ◌≡◌, refl, false, [], ◌∷◌, ◌++◌, append_assoc, Bytes, codes, ◌>>=◌, Option-cases, inl, inr,
}
use atlas_idp.Text.{bytes_eq}
use atlas_idp.Atlasctl.Kube.{Outcome-cases}
use atlas_idp.Atlasctl.Disk.{FilePath, Entry, Disk}
use atlas_idp.Atlasctl.Disk.Paths.{IsPlain, Apart}
use atlas_idp.Atlasctl.Disk.Laws.{Tree, IsListed, DiskLaws}
use atlas_idp.Atlasctl.Gitops.{done, each, copy_entry, copy_dir, infra_entry, sync_infra_resources}
use atlas_idp.Atlasctl.Gitops.Walk.{copy_dir-Frame, mkdir_all-Frame, All-weaken}
use atlas_idp.Atlasctl.Gitops.Copy.{Kept-cons, Frame-Kept}
use atlas_idp.Atlasctl.Gitops.Steps.{Mirrors, failed≢done, fold, IsStep, listing_gives}
use atlas_idp.Atlasctl.Gitops.Mirror.{
  Mirrors-stable, IsListed-Kept, copy_entry-Mirrors, copy_dir-Mirrors, there,
}
use atlas_idp.Atlasctl.Gitops.Sync.{infra_entry-Frame}

pub Mirrors-below :
    (src dst : FilePath) (name : Bytes) (a b : Tree)
    → Mirrors src dst a b
    → Mirrors (name ∷ src) (name ∷ dst) a b
Mirrors-below src dst name a b m rel content h =
    rw (← append_assoc rel (name ∷ []) dst)
      (m (rel ++ name ∷ []) content (rw (append_assoc rel (name ∷ []) src) h))

-- The entries of an infra directory but for gateway.yaml are mirrored.
abbrev pub InfraMirrors : FilePath → FilePath → Tree → Tree → Type 0
InfraMirrors src dst a b =
    (name : Bytes)
    → bytes_eq name (codes "gateway.yaml") ≡ false
    → Mirrors (name ∷ src) (name ∷ dst) a b

module _ (d : Disk) (l : DiskLaws d) where
  infra_entry-IsStep :
      (depth : ℕ) (src dst : FilePath) (a : Tree) (apart : Apart src dst) (e : Entry)
      → IsPlain e.name × IsListed a src e
      → IsStep d l src dst a apart
          (λ name b.
            bytes_eq name (codes "gateway.yaml") ≡ false → Mirrors (name ∷ src) (name ∷ dst) a b)
          (λ name name' b c ne frame p go.
            Mirrors-stable d l src dst a name name' b c ne frame (p go))
          (infra_entry d depth src dst)
          e
  unfolding infra_entry
  infra_entry-IsStep depth src dst a apart e (plain, listed) w kept = (
    infra_entry-Frame d l depth src dst e w plain,
    λ ended go.
        rw (infra_entry, go)
          (fold (e.name ∷ src) (e.name ∷ dst) a (l.tree w)
            (l.tree (copy_entry d (copy_dir d depth) src dst e w).1)
            (Kept-cons src e.name a (l.tree w) kept)
            (copy_entry-Mirrors d l (copy_dir d depth) (copy_dir-Frame d l depth)
              (copy_dir-Mirrors d l depth) src dst e w apart plain
              (IsListed-Kept d l src a (l.tree w) e kept listed) (rw (infra_entry, go) at ended))),
  )

  pub sync_infra-InfraMirrors :
      (depth : ℕ) (src dst : FilePath) (w : d.World)
      → Apart src dst
      → (sync_infra_resources d depth src dst w).0 ≡ done
      → InfraMirrors src dst (l.tree w) (l.tree (sync_infra_resources d depth src dst w).1)
  unfolding sync_infra_resources
  sync_infra-InfraMirrors depth src dst w apart h name go =
      let w₁ = (d.mkdir_all dst w).1 in
      let a = l.tree w₁ in
      let made = Frame-Kept src dst (l.tree w) a apart (mkdir_all-Frame d l dst w) in
      elim (Option-cases ((d.mkdir_all dst w).0)) [
        | inr (e, bad) ↦ absurd (failed≢done e (rw (sync_infra_resources, ◌>>=◌, bad) at h))
        | inl good ↦ elim (Outcome-cases ((d.read_dir src w₁).0)) [
          | inl (e, bad) ↦ absurd (failed≢done e (rw (sync_infra_resources, ◌>>=◌, good, bad) at h))
          | inr (entries, listed) ↦
              let f = infra_entry d depth src dst in
              let ended = (rw (sync_infra_resources, ◌>>=◌, good, listed) at h) in
              rw (sync_infra_resources, ◌>>=◌, good, listed)
                (fold (name ∷ src) (name ∷ dst) (l.tree w) a
                  (l.tree (each d f entries (d.read_dir src w₁).1).1)
                  (Kept-cons src name (l.tree w) a made)
                  (λ rel content here.
                    listing_gives d l src dst a apart
                      (λ n b.
                        bytes_eq n (codes "gateway.yaml") ≡ false → Mirrors (n ∷ src) (n ∷ dst) a b)
                      (λ n n' b c ne frame p ok_name.
                        Mirrors-stable d l src dst a n n' b c ne frame (p ok_name))
                      f w₁ entries name listed (λ q under. refl)
                      (All-weaken (infra_entry-IsStep depth src dst a apart) entries
                        (l.read_dir_gives src w₁ entries listed))
                      (there d l src rel name content w₁ here) ended go rel content here))
        ]
      ]
