-- ===== src/Atlasctl/Gitops/Shared.antt =====
-- What `SyncResources` of tools/atlasctl/pkg/gitops/gitops.go has copied when it reports no error.
use atlas_idp.Common.{
  ◌&&◌, Bool, some, ℕ, ◌≡◌, ◌≢◌, refl, sym, ◌∙◌, true, false, none, [], ◌∷◌, ◌++◌, append_assoc,
  Bytes, codes, ◌>>=◌, Bool-cases, Option-cases, some≢none, inl, inr,
}
use atlas_idp.Text.{bytes_eq}
use atlas_idp.Atlasctl.Kube.{Outcome-cases}
use atlas_idp.Atlasctl.Disk.{FilePath, Entry, Disk}
use atlas_idp.Atlasctl.Disk.Paths.{IsPlain, Apart, Apart-cons, child-plain}
use atlas_idp.Atlasctl.Disk.Laws.{Tree, file, IsListed, DiskLaws}
use atlas_idp.Atlasctl.Gitops.{
  done, each, copy_named, copy_dir, is_private, sync_entry, sync_resources,
}
use atlas_idp.Atlasctl.Gitops.Walk.{Frame, mkdir_all-Frame, All-weaken}
use atlas_idp.Atlasctl.Gitops.Copy.{Kept, Kept-cons, Frame-Kept}
use atlas_idp.Atlasctl.Gitops.Steps.{
  last_of, Mirrors, other_entry, failed≢done, fold, IsStep, listing_gives,
}
use atlas_idp.Atlasctl.Gitops.Mirror.{there, copied-done, mirrored_file, copy_dir-Mirrors}
use atlas_idp.Atlasctl.Gitops.Sync.{sync_entry-Frame}
use atlas_idp.Atlasctl.Gitops.Infra.{Mirrors-below, InfraMirrors, sync_infra-InfraMirrors}

true≢false : true ≢ false
true≢false h = cc

-- An entry of the workload directory is mirrored unless it is passed over; of an entry named infra
-- what it has but gateway.yaml.
abbrev pub IsShared : FilePath → FilePath → Tree → Bytes → Tree → Type 0
IsShared src dst a name b =
    is_private name ≡ false
    → (bytes_eq name (codes "infra") ≡ false → Mirrors (name ∷ src) (name ∷ dst) a b)
      × InfraMirrors (name ∷ src) (name ∷ dst) a b

IsShared-stable :
    (src dst : FilePath) (a : Tree) (name name' : Bytes) (b c : Tree)
    → name' ≢ name
    → Frame (name' ∷ dst) b c
    → IsShared src dst a name b
    → IsShared src dst a name c
IsShared-stable src dst a name name' b c ne frame s open_name = (
  λ other rel content h.
      other_entry dst name name' b c rel ne frame ∙ (s open_name).0 other rel content h,
  λ inner go rel content h.
      let kept = other_entry dst name name' b c (rel ++ inner ∷ []) ne frame in
      (rw (append_assoc rel (inner ∷ []) (name ∷ dst)) at kept)
      ∙ (s open_name).1 inner go rel content h,
)

-- what was there before stands for what is still there
pub IsShared-Kept :
    (src dst : FilePath) (a b : Tree) (name : Bytes) (c : Tree)
    → Kept src a b
    → IsShared src dst b name c
    → IsShared src dst a name c
IsShared-Kept src dst a b name c kept s go =
    let kept' = Kept-cons src name a b kept in
    (
      λ other. fold (name ∷ src) (name ∷ dst) a b c kept' ((s go).0 other),
      λ inner ok_name.
          fold (inner ∷ name ∷ src) (inner ∷ name ∷ dst) a b c
            (Kept-cons (name ∷ src) inner a b kept') ((s go).1 inner ok_name),
    )

-- Whether a path in an entry of the workload directory is the infra directory or its gateway.yaml.
unfoldable pub is_route : Bytes → FilePath → Bool
unfolding bytes_eq
is_route name [] = bytes_eq name (codes "infra")
is_route name (inner ∷ []) = bytes_eq name (codes "infra") && bytes_eq inner (codes "gateway.yaml")
is_route name (_ ∷ inner ∷ rel) = is_route name (inner ∷ rel)

is_route-last :
    (name inner : Bytes) (rel : FilePath)
    → is_route name (rel ++ inner ∷ [])
      ≡ bytes_eq name (codes "infra") && bytes_eq inner (codes "gateway.yaml")
unfolding is_route
is_route-last name inner [] = refl
is_route-last name inner (x ∷ []) = refl
is_route-last name inner (x ∷ y ∷ rel) = is_route-last name inner (y ∷ rel)

-- each file of a shared entry is there
pub IsShared-at :
    (src dst : FilePath) (a : Tree) (name : Bytes) (b : Tree) (rel : FilePath) (content : Bytes)
    → IsShared src dst a name b
    → is_private name ≡ false
    → is_route name rel ≡ false
    → a (rel ++ name ∷ src) ≡ some (file content)
    → b (rel ++ name ∷ dst) ≡ some (file content)
unfolding is_route
IsShared-at src dst a name b rel content s shown kept here =
    elim (Bool-cases (bytes_eq name (codes "infra"))) [
      | inr other ↦ (s shown).0 other rel content here
      | inl infra ↦ elim (last_of rel) [
        | inl empty ↦ absurd (true≢false (sym infra ∙ (rw (empty, is_route) at kept)))
        | inr (rel', inner, split) ↦
            let plain : bytes_eq inner (codes "gateway.yaml") ≡ false =
              (rw (split, is_route-last, infra) at kept) in
            let here' : a (rel' ++ inner ∷ name ∷ src) ≡ some (file content) =
              rw (← append_assoc rel' (inner ∷ []) (name ∷ src), ← split) here in
            rw (split, append_assoc rel' (inner ∷ []) (name ∷ dst))
              ((s shown).1 inner plain rel' content here')
      ]
    ]

-- a mirrored entry is shared
mirrored-IsShared :
    (src dst : FilePath) (a : Tree) (name : Bytes) (b : Tree)
    → Mirrors (name ∷ src) (name ∷ dst) a b
    → IsShared src dst a name b
mirrored-IsShared src dst a name b m _ =
    (λ _. m, λ inner _. Mirrors-below (name ∷ src) (name ∷ dst) inner a b m)

module _ (d : Disk) (l : DiskLaws d) where
  pub copy_named-done :
      (src dst : FilePath) (w : d.World)
      → (copy_named d src dst w).0 ≡ none
      → Mirrors src dst (l.tree w) (l.tree (copy_named d src dst w).1)
  unfolding copy_named
  copy_named-done src dst w h =
      let w₁ = (d.read_file src w).1 in
      elim (Outcome-cases ((d.read_file src w).0)) [
        | inl (e, bad) ↦ absurd (some≢none (rw (copy_named, ◌>>=◌, bad) at h))
        | inr (content, good) ↦ elim (Option-cases ((d.write_file dst content w₁).0)) [
          | inr (e, bad) ↦ absurd (some≢none (rw (copy_named, ◌>>=◌, good, bad) at h))
          | inl fit ↦
              rw (copy_named, ◌>>=◌, good, fit)
                (mirrored_file d l src dst w (l.tree (d.write_file dst content w₁).1) content
                  (l.read_file_gives src w content good) (l.write_file_done dst content w₁ fit))
        ]
      ]

  sync_entry-IsShared :
      (depth : ℕ) (src dst : FilePath) (e : Entry) (w : d.World)
      → Apart src dst
      → IsPlain e.name
      → (sync_entry d depth src dst e w).0 ≡ done
      → IsShared src dst (l.tree w) e.name (l.tree (sync_entry d depth src dst e w).1)
  unfolding sync_entry
  sync_entry-IsShared depth src dst e w apart plain h go =
      let from = child-plain src e.name plain in
      let to = child-plain dst e.name plain in
      let inner = Apart-cons src dst e.name apart in
      elim (Bool-cases e.is_dir) [
        | inr no_dir ↦
            let ended =
              copied-done d l ((copy_named d (e.name ∷ src) (e.name ∷ dst) w).0)
                (rw (sync_entry, ◌>>=◌, go, no_dir, from, to) at h) in
            rw (sync_entry, ◌>>=◌, go, no_dir, from, to)
              (mirrored-IsShared src dst (l.tree w) e.name
                (l.tree (copy_named d (e.name ∷ src) (e.name ∷ dst) w).1)
                (copy_named-done (e.name ∷ src) (e.name ∷ dst) w ended) go)
        | inl yes_dir ↦ elim (Bool-cases (bytes_eq e.name (codes "infra"))) [
          | inr other ↦
              let b = l.tree (copy_dir d depth (e.name ∷ src) (e.name ∷ dst) w).1 in
              let m =
                copy_dir-Mirrors d l depth (e.name ∷ src) (e.name ∷ dst) w inner
                  (rw (sync_entry, go, yes_dir, other, from, to) at h) in
              rw (sync_entry, go, yes_dir, other, from, to)
                (λ _. m, λ name _. Mirrors-below (e.name ∷ src) (e.name ∷ dst) name (l.tree w) b m)
          | inl infra ↦
              rw (sync_entry, go, yes_dir, infra, from, to)
                (
                  λ other. absurd (true≢false other),
                  sync_infra-InfraMirrors d l depth (e.name ∷ src) (e.name ∷ dst) w inner
                      (rw (sync_entry, go, yes_dir, infra, from, to) at h),
                )
        ]
      ]

  sync_entry-IsStep :
      (depth : ℕ) (src dst : FilePath) (a : Tree) (apart : Apart src dst) (e : Entry)
      → IsPlain e.name × IsListed a src e
      → IsStep d l src dst a apart
          (IsShared src dst a)
          (IsShared-stable src dst a)
          (sync_entry d depth src dst)
          e
  sync_entry-IsStep depth src dst a apart e (plain, _) w kept = (
    sync_entry-Frame d l depth src dst e w plain,
    λ ended.
        IsShared-Kept src dst a (l.tree w) e.name (l.tree (sync_entry d depth src dst e w).1) kept
          (sync_entry-IsShared depth src dst e w apart plain ended),
  )

  -- the entry of each name is shared
  pub sync_resources-IsShared :
      (depth : ℕ) (src dst : FilePath) (w : d.World) (name : Bytes)
      → Apart src dst
      → (sync_resources d depth src dst w).0 ≡ done
      → l.tree w (name ∷ src) ≢ none
      → IsShared src dst (l.tree w) name (l.tree (sync_resources d depth src dst w).1)
  unfolding sync_resources
  sync_resources-IsShared depth src dst w name apart h here =
      let w₁ = (d.mkdir_all dst w).1 in
      let a = l.tree w₁ in
      let made = Frame-Kept src dst (l.tree w) a apart (mkdir_all-Frame d l dst w) in
      elim (Option-cases ((d.mkdir_all dst w).0)) [
        | inr (e, bad) ↦ absurd (failed≢done _ (rw (sync_resources, ◌>>=◌, bad) at h))
        | inl good ↦ elim (Outcome-cases ((d.read_dir src w₁).0)) [
          | inl (e, bad) ↦ absurd (failed≢done _ (rw (sync_resources, ◌>>=◌, good, bad) at h))
          | inr (entries, listed) ↦
              let f = sync_entry d depth src dst in
              let ended = (rw (sync_resources, ◌>>=◌, good, listed) at h) in
              rw (sync_resources, ◌>>=◌, good, listed)
                (IsShared-Kept src dst (l.tree w) a name
                  (l.tree (each d f entries (d.read_dir src w₁).1).1) made
                  (listing_gives d l src dst a apart (IsShared src dst a)
                    (IsShared-stable src dst a) f w₁ entries name listed (λ q under. refl)
                    (All-weaken (sync_entry-IsStep depth src dst a apart) entries
                      (l.read_dir_gives src w₁ entries listed))
                    (λ gone. here (sym (made (name ∷ src) (name ∷ [], refl)) ∙ gone)) ended))
        ]
      ]

  -- If neither the workload directory nor the resources directory is in the other and
  -- `SyncResources` reports no error, each file of each entry of the workload directory that it
  -- does not pass over is at the same place in the resources directory with its content, at any
  -- depth; not so an entry named infra itself and its gateway.yaml.
  pub sync_resources-copies :
      (depth : ℕ) (src dst : FilePath) (w : d.World) (name : Bytes) (rel : FilePath)
      (content : Bytes)
      → Apart src dst
      → (sync_resources d depth src dst w).0 ≡ done
      → is_private name ≡ false
      → is_route name rel ≡ false
      → l.tree w (rel ++ name ∷ src) ≡ some (file content)
      → l.tree (sync_resources d depth src dst w).1 (rel ++ name ∷ dst) ≡ some (file content)
  sync_resources-copies depth src dst w name rel content apart h shown kept here =
      IsShared-at src dst (l.tree w) name (l.tree (sync_resources d depth src dst w).1) rel content
        (sync_resources-IsShared depth src dst w name apart h
          (there d l src rel name content w here))
        shown kept here
