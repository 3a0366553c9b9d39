-- ===== src/Atlasctl/Gitops/Walk.antt =====
-- What the copying of directories in tools/atlasctl/pkg/gitops/gitops.go leaves as it is.
use atlas_idp.Common.{
  ℕ, zero, suc, ◌≡◌, ◌⊎◌, refl, ◌∙◌, List, [], ◌∷◌, Bytes, Act, ◌>>=◌, All, Bool-cases,
  Option-cases, inl, inr,
}
use atlas_idp.Atlasctl.Kube.{fine, Outcome-cases}
use atlas_idp.Atlasctl.Disk.{FilePath, Entry, Disk}
use atlas_idp.Atlasctl.Disk.Paths.{IsUnder, IsPlain, child-plain, IsUnder-cons, cons-IsUnder}
use atlas_idp.Atlasctl.Disk.Laws.{Tree, DiskLaws}
use atlas_idp.Atlasctl.Gitops.{Copied, done, deeper, failed, each, copy_file, copy_entry, copy_dir}

-- Only `dst`, what is below it and the directories above it may differ.
abbrev pub Frame : FilePath → Tree → Tree → Type 0
Frame dst a b = (q : FilePath) → ¬ IsUnder dst q → ¬ IsUnder q dst → b q ≡ a q

pub Frame-refl : (dst : FilePath) (a : Tree) → Frame dst a a
Frame-refl dst a q _ _ = refl

pub Frame-trans : (dst : FilePath) (a b c : Tree) → Frame dst a b → Frame dst b c → Frame dst a c
Frame-trans dst a b c f g q out out' = g q out out' ∙ f q out out'

-- what changes only a child changes only the directory
pub Frame-cons :
    (dst : FilePath) (name : Bytes) (a b : Tree) → Frame (name ∷ dst) a b → Frame dst a b
Frame-cons dst name a b f q out out' =
    f q (λ u. out (IsUnder-cons dst q name u)) (λ u. out' (cons-IsUnder dst q name u out))

pub All-weaken :
    {P Q : Entry → Type 0} (weaken : (e : Entry) → P e → Q e) (entries : List Entry)
    → All P entries
    → All Q entries
All-weaken weaken [] _ = tt
All-weaken weaken (e ∷ entries) (p, ps) = (weaken e p, All-weaken weaken entries ps)

pub Copied-cases : (c : Copied) → (c ≡ done) ⊎ ((c ≡ deeper) ⊎ ((why : Bytes) × (c ≡ failed why)))
Copied-cases done = inl refl
Copied-cases deeper = inr (inl refl)
Copied-cases (failed why) = inr (inr (why, refl))

module _ (d : Disk) (l : DiskLaws d) where
  -- a loop keeps what every step of it keeps
  pub each-keeps :
      (R : Tree → Tree → Type 0) (f : Entry → Act d.World Copied) (entries : List Entry)
      → ((a : Tree) → R a a)
      → ((a b c : Tree) → R a b → R b c → R a c)
      → All (λ e. (w : d.World) → R (l.tree w) (l.tree (f e w).1)) entries
      → (w : d.World) → R (l.tree w) (l.tree (each d f entries w).1)
  unfolding each
  each-keeps R f [] same then _ w = same (l.tree w)
  each-keeps R f (e ∷ entries) same then (step, steps) w =
      let w' = (f e w).1 in
      elim (Copied-cases ((f e w).0)) [
        | inl ended ↦
            rw (each, ◌>>=◌, ended)
              (then (l.tree w) (l.tree w') (l.tree (each d f entries w').1) (step w)
                (each-keeps R f entries same then steps w'))
        | inr (inl ended) ↦ rw (each, ◌>>=◌, ended) (step w)
        | inr (inr (why, ended)) ↦ rw (each, ◌>>=◌, ended) (step w)
      ]

  pub write_file-Frame :
      (dst : FilePath) (content : Bytes) (w : d.World)
      → Frame dst (l.tree w) (l.tree (d.write_file dst content w).1)
  write_file-Frame dst content w q out _ =
      l.write_file_frame dst q content w (λ same. out ([], same))

  copy_file-Frame :
      (src dst : FilePath) (w : d.World) → Frame dst (l.tree w) (l.tree (copy_file d src dst w).1)
  unfolding copy_file
  copy_file-Frame src dst w =
      let w' = (d.read_file src w).1 in
      elim (Outcome-cases ((d.read_file src w).0)) [
        | inl (e, bad) ↦ rw (copy_file, ◌>>=◌, bad, l.read_file_keeps) (Frame-refl dst (l.tree w))
        | inr (content, good) ↦
            rw (copy_file, ◌>>=◌, good, ← l.read_file_keeps src w) (write_file-Frame dst content w')
      ]

  pub mkdir_all-Frame :
      (dst : FilePath) (w : d.World) → Frame dst (l.tree w) (l.tree (d.mkdir_all dst w).1)
  mkdir_all-Frame dst w q _ out = l.mkdir_all_frame dst q w out

  -- the names that os.ReadDir gives are plain
  pub listed-IsPlain :
      (src : FilePath) (w : d.World) (entries : List Entry)
      → (d.read_dir src w).0 ≡ fine entries
      → All (λ e. IsPlain e.name) entries
  listed-IsPlain src w entries listed =
      All-weaken (λ e both. both.0) entries (l.read_dir_gives src w entries listed)

  module _ (sub : FilePath → FilePath → Act d.World Copied)
      (sub-Frame : (src dst : FilePath) (w : d.World)
        → Frame dst (l.tree w) (l.tree (sub src dst w).1)) where
    pub copy_entry-Frame :
        (src dst : FilePath) (e : Entry) (w : d.World)
        → IsPlain e.name
        → Frame (e.name ∷ dst) (l.tree w) (l.tree (copy_entry d sub src dst e w).1)
    unfolding copy_entry
    copy_entry-Frame src dst e w plain =
        rw (copy_entry, child-plain src e.name plain, child-plain dst e.name plain)
          (elim (Bool-cases e.is_dir) [
            | inl yes_dir ↦ rw yes_dir (sub-Frame (e.name ∷ src) (e.name ∷ dst) w)
            | inr no_dir ↦ rw no_dir (copy_file-Frame (e.name ∷ src) (e.name ∷ dst) w)
          ])

    pub entries-Frame :
        (src dst : FilePath) (entries : List Entry)
        → All (λ e. IsPlain e.name) entries
        → All
            (λ e. (w : d.World) → Frame dst (l.tree w) (l.tree (copy_entry d sub src dst e w).1))
            entries
    entries-Frame src dst [] _ = tt
    entries-Frame src dst (e ∷ entries) (plain, plains) = (
      λ w. Frame-cons dst e.name _ _ (copy_entry-Frame src dst e w plain),
      entries-Frame src dst entries plains,
    )

  pub copy_dir-Frame :
      (depth : ℕ) (src dst : FilePath) (w : d.World)
      → Frame dst (l.tree w) (l.tree (copy_dir d depth src dst w).1)
  unfolding copy_dir
  copy_dir-Frame zero src dst w = Frame-refl dst (l.tree w)
  copy_dir-Frame (suc depth) src dst w =
      let w₁ = (d.read_dir src w).1 in
      let w₂ = (d.mkdir_all dst w₁).1 in
      let made : Frame dst (l.tree w) (l.tree w₂) =
        rw (← l.read_dir_keeps src w) (mkdir_all-Frame dst w₁) in
      elim (Outcome-cases ((d.read_dir src w).0)) [
        | inl (e, bad) ↦ rw (copy_dir, ◌>>=◌, bad, l.read_dir_keeps) (Frame-refl dst (l.tree w))
        | inr (entries, listed) ↦ elim (Option-cases ((d.mkdir_all dst w₁).0)) [
          | inr (e, bad) ↦ rw (copy_dir, ◌>>=◌, listed, bad) made
          | inl good ↦
              let f = copy_entry d (copy_dir d depth) src dst in
              rw (copy_dir, ◌>>=◌, listed, good)
                (Frame-trans dst (l.tree w) (l.tree w₂) (l.tree (each d f entries w₂).1) made (
                  each-keeps (Frame dst) f entries (Frame-refl dst) (Frame-trans dst)
                    (entries-Frame (copy_dir d depth) (copy_dir-Frame depth) src dst entries
                      (listed-IsPlain src w entries listed))
                    w₂))
        ]
      ]
