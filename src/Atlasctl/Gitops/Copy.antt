-- ===== src/Atlasctl/Gitops/Copy.antt =====
-- `copyDir` of tools/atlasctl/pkg/gitops/gitops.go: that it ends, and that it copies every file.
use atlas_idp.Common.{
  ℕ, zero, suc, ◌≡◌, ◌≢◌, refl, sym, ap, ◌∙◌, true, Option, none, some, List, [], ◌∷◌, ◌++◌,
  append_assoc, Bytes, Act, ◌>>=◌, All, Bool-cases, Option-cases, inl, inr,
}
use atlas_idp.Atlasctl.Kube.{Outcome-cases}
use atlas_idp.Atlasctl.Disk.{FilePath, Entry, Disk}
use atlas_idp.Atlasctl.Disk.Paths.{
  IsUnder, IsUnder-join, IsPlain, Apart, Apart-cons, child-plain, IsUnder-cons,
}
use atlas_idp.Atlasctl.Disk.Laws.{Tree, folder, IsListed, DiskLaws}
use atlas_idp.Atlasctl.Gitops.{
  Copied, done, deeper, failed, copied, each, copy_file, copy_entry, copy_dir,
}
use atlas_idp.Atlasctl.Gitops.Walk.{
  Frame, Frame-cons, Copied-cases, copy_entry-Frame, copy_dir-Frame, mkdir_all-Frame, All-weaken,
}

-- What is at `src` and below is the same.
abbrev pub Kept : FilePath → Tree → Tree → Type 0
Kept src a b = (q : FilePath) → IsUnder src q → b q ≡ a q

pub Kept-trans : (src : FilePath) (a b c : Tree) → Kept src a b → Kept src b c → Kept src a c
Kept-trans src a b c f g q under = g q under ∙ f q under

pub Kept-cons : (src : FilePath) (name : Bytes) (a b : Tree) → Kept src a b → Kept (name ∷ src) a b
Kept-cons src name a b f q under = f q (IsUnder-cons src q name under)

-- copying to `dst` keeps what is apart from it
pub Frame-Kept : (src dst : FilePath) (a b : Tree) → Apart src dst → Frame dst a b → Kept src a b
Frame-Kept src dst a b (out, out') frame q (rel, same) =
    frame q
      (λ (rel', same'). elim (IsUnder-join src dst rel rel' (sym same ∙ same')) [
        | inl under ↦ out under
        | inr under ↦ out' under
      ])
      (λ (rel', same'). out (
        rel' ++ rel,
        same' ∙ ap (λ (r : FilePath). rel' ++ r) same ∙ sym (append_assoc rel' rel src),
      ))

-- No directory is more than so many levels below.
abbrev pub Within : Tree → ℕ → FilePath → Type 0
Within a zero src = ⊥
Within a (suc depth) src =
    (name : Bytes) → a (name ∷ src) ≡ some folder → Within a depth (name ∷ src)

Within-Kept :
    (depth : ℕ) (src : FilePath) (a b : Tree)
    → Kept src a b
    → Within a depth src
    → Within b depth src
Within-Kept zero src a b kept h = h
Within-Kept (suc depth) src a b kept h = λ name there.
    Within-Kept depth (name ∷ src) a b (Kept-cons src name a b kept)
      (h name (sym (kept (name ∷ src) (name ∷ [], refl)) ∙ there))

done≢deeper : done ≢ deeper
done≢deeper h = cc

failed≢deeper : (why : Bytes) → failed why ≢ deeper
failed≢deeper why h = cc

copied≢deeper : (e : Option Bytes) → copied e ≢ deeper
copied≢deeper none = done≢deeper
copied≢deeper (some why) = failed≢deeper why

listed_folder :
    (a : Tree) (dir : FilePath) (e : Entry)
    → IsListed a dir e
    → e.is_dir ≡ true
    → a (e.name ∷ dir) ≡ some folder
listed_folder a dir e (inl (_, there)) h = there
listed_folder a dir e (inr (no_dir, _, _)) h = cc

module _ (d : Disk) (l : DiskLaws d) where
  -- a loop reaches no depth limit if no step does as long as `I` holds, which every step keeps
  each-enough :
      (I : Tree → Type 0) (f : Entry → Act d.World Copied) (entries : List Entry)
      → All
          (λ e. (w : d.World) → I (l.tree w) → I (l.tree (f e w).1) × ((f e w).0 ≢ deeper))
          entries
      → (w : d.World) → I (l.tree w)
      → (each d f entries w).0 ≢ deeper
  unfolding each
  each-enough I f [] _ w i = done≢deeper
  each-enough I f (e ∷ entries) (step, steps) w i = elim (Copied-cases ((f e w).0)) [
    | inl ended ↦ rw (each, ◌>>=◌, ended) (each-enough I f entries steps (f e w).1 (step w i).0)
    | inr (inl ended) ↦ absurd ((step w i).1 ended)
    | inr (inr (why, ended)) ↦ rw (each, ◌>>=◌, ended) (failed≢deeper why)
  ]

  copy_dir-Kept :
      (depth : ℕ) (src dst : FilePath) (w : d.World)
      → Apart src dst
      → Kept src (l.tree w) (l.tree (copy_dir d depth src dst w).1)
  copy_dir-Kept depth src dst w apart =
      Frame-Kept src dst _ _ apart (copy_dir-Frame d l depth src dst w)

  module _ (sub : FilePath → FilePath → Act d.World Copied) (depth : ℕ)
      (sub-Frame : (src dst : FilePath) (w : d.World)
        → Frame dst (l.tree w) (l.tree (sub src dst w).1))
      (sub-enough : (src dst : FilePath) (w : d.World)
        → Apart src dst
        → Within (l.tree w) depth src
        → (sub src dst w).0 ≢ deeper) where
    copy_entry-enough :
        (src dst : FilePath) (a : Tree) (e : Entry)
        → Apart src dst
        → Within a (suc depth) src
        → IsPlain e.name × IsListed a src e
        → (w : d.World) → Kept src a (l.tree w)
        → Kept src a (l.tree (copy_entry d sub src dst e w).1)
          × ((copy_entry d sub src dst e w).0 ≢ deeper)
    unfolding copy_entry
    copy_entry-enough src dst a e apart shallow (plain, listed) w kept = (
      Kept-trans src a (l.tree w) _ kept (
          Frame-Kept src dst _ _ apart
            (Frame-cons dst e.name _ _ (copy_entry-Frame d l sub sub-Frame src dst e w plain))),
      rw (copy_entry, child-plain src e.name plain, child-plain dst e.name plain)
          (elim (Bool-cases e.is_dir) [
            | inr no_dir ↦ rw no_dir (copied≢deeper (copy_file d (e.name ∷ src) (e.name ∷ dst) w).0)
            | inl yes_dir ↦ rw yes_dir (
                sub-enough (e.name ∷ src) (e.name ∷ dst) w (Apart-cons src dst e.name apart) (
                  Within-Kept depth (e.name ∷ src) a (l.tree w)
                    (Kept-cons src e.name a (l.tree w) kept)
                    (shallow e.name (listed_folder a src e listed yes_dir))))
          ]),
    )

  -- If neither `src` nor `dst` is in the other and no directory is `depth` levels or more below
  -- `src`, the recursion of `copyDir` ends before that depth, whatever the calls answer.
  pub copy_dir-enough :
      (depth : ℕ) (src dst : FilePath) (w : d.World)
      → Apart src dst
      → Within (l.tree w) depth src
      → (copy_dir d depth src dst w).0 ≢ deeper
  unfolding copy_dir
  copy_dir-enough zero src dst w apart shallow = absurd shallow
  copy_dir-enough (suc depth) src dst w apart shallow =
      let w₁ = (d.read_dir src w).1 in
      let w₂ = (d.mkdir_all dst w₁).1 in
      elim (Outcome-cases ((d.read_dir src w).0)) [
        | inl (e, bad) ↦ rw (copy_dir, ◌>>=◌, bad) (failed≢deeper e)
        | inr (entries, listed) ↦ elim (Option-cases ((d.mkdir_all dst w₁).0)) [
          | inr (e, bad) ↦ rw (copy_dir, ◌>>=◌, listed, bad) (failed≢deeper e)
          | inl good ↦
              rw (copy_dir, ◌>>=◌, listed, good)
                (each-enough (Kept src (l.tree w)) (copy_entry d (copy_dir d depth) src dst) entries
                  (All-weaken
                    (λ e known.
                      copy_entry-enough (copy_dir d depth) depth (copy_dir-Frame d l depth)
                        (copy_dir-enough depth) src dst (l.tree w) e apart shallow known)
                    entries (l.read_dir_gives src w entries listed))
                  w₂
                  (Frame-Kept src dst (l.tree w) (l.tree w₂) apart
                    (rw (← l.read_dir_keeps src w) (mkdir_all-Frame d l dst w₁))))
        ]
      ]
