-- ===== src/Atlasctl/Gitops/Sync.antt =====
-- `SyncResources` and `syncInfraResources` of tools/atlasctl/pkg/gitops/gitops.go: which paths of
-- the target they leave as they are.
use atlas_idp.Common.{
  ℕ, ◌≡◌, ◌≢◌, ◌⊎◌, refl, sym, ap, ◌∙◌, true, none, List, [], ◌∷◌, ◌++◌, Bytes, codes, Act, ◌>>=◌,
  All, length, arith, Bool-cases, Option-cases, some≢none, inl, inr,
}
use atlas_idp.Text.{bytes_eq}
use atlas_idp.Text.Laws.{bytes_eq_iff}
use atlas_idp.Atlasctl.Kube.{fine, Outcome-cases}
use atlas_idp.Atlasctl.Disk.{FilePath, Entry, Disk}
use atlas_idp.Atlasctl.Disk.Paths.{IsUnder, IsPlain, child-plain, IsUnder-cons, length-append}
use atlas_idp.Atlasctl.Disk.Laws.{Tree, IsListed, DiskLaws}
use atlas_idp.Atlasctl.Gitops.{
  Copied, each, copy_named, copy_dir, infra_entry, sync_infra_resources, is_private, sync_entry,
  sync_resources,
}
use atlas_idp.Atlasctl.Gitops.Walk.{
  Frame, Frame-refl, Frame-trans, Frame-cons, copy_entry-Frame, copy_dir-Frame, mkdir_all-Frame,
  each-keeps, All-weaken, listed-IsPlain,
}
use atlas_idp.Atlasctl.Gitops.Steps.{other_entry}

listed_there : (a : Tree) (dir : FilePath) (e : Entry) → IsListed a dir e → a (e.name ∷ dir) ≢ none
listed_there a dir e (inl (_, here)) gone = some≢none (sym here ∙ gone)
listed_there a dir e (inr (_, _, here)) gone = some≢none (sym here ∙ gone)

-- no directory is below itself
above_child : (dst : FilePath) (name : Bytes) (rel : FilePath) → ¬ IsUnder (rel ++ name ∷ dst) dst
above_child dst name rel (rel', same) =
    let long = ap length same in
    let more = length-append rel' (rel ++ name ∷ dst) in
    let more' = length-append rel (name ∷ dst) in ground (arith, long, more, more')

module _ (d : Disk) (l : DiskLaws d) where
  pub copy_named-frame :
      (src dst q : FilePath) (w : d.World)
      → q ≢ dst
      → l.tree (copy_named d src dst w).1 q ≡ l.tree w q
  unfolding copy_named
  copy_named-frame src dst q w ne =
      let w₁ = (d.read_file src w).1 in
      let kept : l.tree w₁ q ≡ l.tree w q = ap (λ (t : Tree). t q) (l.read_file_keeps src w) in
      elim (Outcome-cases ((d.read_file src w).0)) [
        | inl (e, bad) ↦ rw (copy_named, ◌>>=◌, bad) kept
        | inr (content, good) ↦
            let wrote = l.write_file_frame dst q content w₁ ne ∙ kept in
            elim (Option-cases ((d.write_file dst content w₁).0)) [
              | inl fit ↦ rw (copy_named, ◌>>=◌, good, fit) wrote
              | inr (e, bad) ↦ rw (copy_named, ◌>>=◌, good, bad) wrote
            ]
      ]

  copy_named-Frame :
      (src dst : FilePath) (w : d.World) → Frame dst (l.tree w) (l.tree (copy_named d src dst w).1)
  copy_named-Frame src dst w q out _ = copy_named-frame src dst q w (λ same. out ([], same))

  pub infra_entry-Frame :
      (depth : ℕ) (src dst : FilePath) (e : Entry) (w : d.World)
      → IsPlain e.name
      → Frame (e.name ∷ dst) (l.tree w) (l.tree (infra_entry d depth src dst e w).1)
  unfolding infra_entry
  infra_entry-Frame depth src dst e w plain =
      elim (Bool-cases (bytes_eq e.name (codes "gateway.yaml"))) [
        | inl skip ↦ rw (infra_entry, skip) (Frame-refl (e.name ∷ dst) (l.tree w))
        | inr go ↦
            rw (infra_entry, go)
              (copy_entry-Frame d l (copy_dir d depth) (copy_dir-Frame d l depth) src dst e w plain)
      ]

  -- the loop over the entries of `src` keeps what its steps keep
  entries-Frame :
      (f : Entry → Act d.World Copied) (src dst : FilePath) (entries : List Entry) (w : d.World)
      → ((e : Entry) (u : d.World)
          → IsPlain e.name
          → Frame (e.name ∷ dst) (l.tree u) (l.tree (f e u).1))
      → (d.read_dir src w).0 ≡ fine entries
      → Frame dst (l.tree w) (l.tree (each d f entries (d.read_dir src w).1).1)
  entries-Frame f src dst entries w step listed = rw (← l.read_dir_keeps src w) (
      each-keeps d l (Frame dst) f entries (Frame-refl dst) (Frame-trans dst)
        (All-weaken (λ e plain u. Frame-cons dst e.name _ _ (step e u plain)) entries
          (listed-IsPlain d l src w entries listed))
        (d.read_dir src w).1)

  sync_infra-Frame :
      (depth : ℕ) (src dst : FilePath) (w : d.World)
      → Frame dst (l.tree w) (l.tree (sync_infra_resources d depth src dst w).1)
  unfolding sync_infra_resources
  sync_infra-Frame depth src dst w =
      let w₁ = (d.mkdir_all dst w).1 in
      let w₂ = (d.read_dir src w₁).1 in
      let made = mkdir_all-Frame d l dst w in
      elim (Option-cases ((d.mkdir_all dst w).0)) [
        | inr (e, bad) ↦ rw (sync_infra_resources, ◌>>=◌, bad) made
        | inl good ↦ elim (Outcome-cases ((d.read_dir src w₁).0)) [
          | inl (e, bad) ↦ rw (sync_infra_resources, ◌>>=◌, good, bad, l.read_dir_keeps) made
          | inr (entries, listed) ↦
              rw (sync_infra_resources, ◌>>=◌, good, listed)
                (Frame-trans dst (l.tree w) (l.tree w₁) _ made (
                  entries-Frame (infra_entry d depth src dst) src dst entries w₁
                    (infra_entry-Frame depth src dst) listed))
        ]
      ]

  pub sync_entry-Frame :
      (depth : ℕ) (src dst : FilePath) (e : Entry) (w : d.World)
      → IsPlain e.name
      → Frame (e.name ∷ dst) (l.tree w) (l.tree (sync_entry d depth src dst e w).1)
  unfolding sync_entry
  sync_entry-Frame depth src dst e w plain =
      let from = child-plain src e.name plain in
      let to = child-plain dst e.name plain in
      elim (Bool-cases (is_private e.name)) [
        | inl skip ↦ rw (sync_entry, skip) (Frame-refl (e.name ∷ dst) (l.tree w))
        | inr go ↦ elim (Bool-cases e.is_dir) [
          | inr no_dir ↦
              rw (sync_entry, ◌>>=◌, go, no_dir, from, to)
                (copy_named-Frame (e.name ∷ src) (e.name ∷ dst) w)
          | inl yes_dir ↦ elim (Bool-cases (bytes_eq e.name (codes "infra"))) [
            | inl infra ↦
                rw (sync_entry, go, yes_dir, infra, from, to)
                  (sync_infra-Frame depth (e.name ∷ src) (e.name ∷ dst) w)
            | inr other ↦
                rw (sync_entry, go, yes_dir, other, from, to)
                  (copy_dir-Frame d l depth (e.name ∷ src) (e.name ∷ dst) w)
          ]
        ]
      ]

  pub sync_resources-Frame :
      (depth : ℕ) (src dst : FilePath) (w : d.World)
      → Frame dst (l.tree w) (l.tree (sync_resources d depth src dst w).1)
  unfolding sync_resources
  sync_resources-Frame depth src dst w =
      let w₁ = (d.mkdir_all dst w).1 in
      let made = mkdir_all-Frame d l dst w in
      elim (Option-cases ((d.mkdir_all dst w).0)) [
        | inr (e, bad) ↦ rw (sync_resources, ◌>>=◌, bad) made
        | inl good ↦ elim (Outcome-cases ((d.read_dir src w₁).0)) [
          | inl (e, bad) ↦ rw (sync_resources, ◌>>=◌, good, bad, l.read_dir_keeps) made
          | inr (entries, listed) ↦
              rw (sync_resources, ◌>>=◌, good, listed)
                (Frame-trans dst (l.tree w) (l.tree w₁) _ made (
                  entries-Frame (sync_entry d depth src dst) src dst entries w₁
                    (sync_entry-Frame depth src dst) listed))
        ]
      ]

  -- The target directory of an entry that is private or that the workload does not have.
  abbrev IsLeft : FilePath → Tree → Bytes → Type 0
  IsLeft src a name = (is_private name ≡ true) ⊎ (a (name ∷ src) ≡ none)

  -- a step leaves the entry of such a name
  sync_entry-leaves :
      (depth : ℕ) (src dst : FilePath) (a : Tree) (name : Bytes) (rel : FilePath)
      → IsLeft src a name
      → (e : Entry) → IsPlain e.name × IsListed a src e
      → (w : d.World)
      → l.tree (sync_entry d depth src dst e w).1 (rel ++ name ∷ dst) ≡ l.tree w (rel ++ name ∷ dst)
  unfolding sync_entry
  sync_entry-leaves depth src dst a name rel left e (plain, listed) w =
      elim (Bool-cases (bytes_eq e.name name)) [
        | inr other ↦
            other_entry dst name e.name (l.tree w) _ rel
              (λ same. ground (arith, other, (bytes_eq_iff e.name name).1 same))
              (sync_entry-Frame depth src dst e w plain)
        | inl same ↦
            let same' = (bytes_eq_iff e.name name).0 same in
            elim left [
              | inl private ↦ rw (sync_entry, same', private)
              | inr absent ↦
                  absurd (listed_there a src e listed (ap (λ n. a (n ∷ src)) same' ∙ absent))
            ]
      ]

  each-leaves :
      (f : Entry → Act d.World Copied) (entries : List Entry) (q : FilePath)
      → All (λ e. (w : d.World) → l.tree (f e w).1 q ≡ l.tree w q) entries
      → (w : d.World) → l.tree (each d f entries w).1 q ≡ l.tree w q
  each-leaves f entries q steps w =
      each-keeps d l (λ a b. b q ≡ a q) f entries (λ a. refl) (λ a b c h h'. h' ∙ h) steps w

  IsLeft-mkdir :
      (src dst : FilePath) (name : Bytes) (w : d.World)
      → IsLeft src (l.tree w) name
      → ¬ IsUnder src dst
      → IsLeft src (l.tree (d.mkdir_all dst w).1) name
  IsLeft-mkdir src dst name w (inl private) out = inl private
  IsLeft-mkdir src dst name w (inr absent) out = inr (
      l.mkdir_all_frame dst (name ∷ src) w (λ under. out (IsUnder-cons src dst name under))
      ∙ absent)

  -- With a resources directory that is not in the workload directory, whether `SyncResources`
  -- reports an error or not, it changes nothing at or below the place of a name in the resources
  -- directory if that name is one that it passes over, as `.secret-seed` is, or if the workload
  -- directory has no entry of that name.
  pub sync_resources-leaves :
      (depth : ℕ) (src dst : FilePath) (w : d.World) (name : Bytes) (rel : FilePath)
      → IsLeft src (l.tree w) name
      → ¬ IsUnder src dst
      → l.tree (sync_resources d depth src dst w).1 (rel ++ name ∷ dst)
        ≡ l.tree w (rel ++ name ∷ dst)
  unfolding sync_resources
  sync_resources-leaves depth src dst w name rel left out =
      let q = rel ++ name ∷ dst in
      let w₁ = (d.mkdir_all dst w).1 in
      let made = l.mkdir_all_frame dst q w (above_child dst name rel) in
      elim (Option-cases ((d.mkdir_all dst w).0)) [
        | inr (e, bad) ↦ rw (sync_resources, ◌>>=◌, bad) made
        | inl good ↦ elim (Outcome-cases ((d.read_dir src w₁).0)) [
          | inl (e, bad) ↦ rw (sync_resources, ◌>>=◌, good, bad, l.read_dir_keeps) made
          | inr (entries, listed) ↦
              let kept =
                each-leaves (sync_entry d depth src dst) entries q
                  (All-weaken
                    (sync_entry-leaves depth src dst (l.tree w₁) name rel
                      (IsLeft-mkdir src dst name w left out))
                    entries (l.read_dir_gives src w₁ entries listed))
                  (d.read_dir src w₁).1 in
              rw (sync_resources, ◌>>=◌, good, listed) (rw (l.read_dir_keeps src w₁) at kept ∙ made)
        ]
      ]
