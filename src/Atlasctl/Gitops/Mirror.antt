-- ===== src/Atlasctl/Gitops/Mirror.antt =====
-- What `copyDir` of tools/atlasctl/pkg/gitops/gitops.go has copied when it reports no error.
use atlas_idp.Common.{
  ℕ, zero, suc, ◌≡◌, ◌≢◌, refl, sym, ◌∙◌, false, Option, none, some, [], ◌∷◌, ◌++◌, append_assoc,
  Bytes, Act, ◌>>=◌, Bool-cases, Option-cases, some≢none, inl, inr,
}
use atlas_idp.Atlasctl.Kube.{Outcome-cases}
use atlas_idp.Atlasctl.Disk.{FilePath, Entry, Disk}
use atlas_idp.Atlasctl.Disk.Paths.{IsPlain, Apart, Apart-cons, child-plain}
use atlas_idp.Atlasctl.Disk.Laws.{Tree, Node, file, folder, IsListed, DiskLaws}
use atlas_idp.Atlasctl.Gitops.{Copied, done, copied, each, copy_file, copy_entry, copy_dir}
use atlas_idp.Atlasctl.Gitops.Walk.{
  Frame, copy_entry-Frame, copy_dir-Frame, mkdir_all-Frame, All-weaken,
}
use atlas_idp.Atlasctl.Gitops.Copy.{Kept, Kept-cons, Frame-Kept}
use atlas_idp.Atlasctl.Gitops.Steps.{
  Mirrors, other_entry, failed≢done, deeper≢done, fold, last_of, above_is_folder, IsStep,
  each-gives,
}

module _ (d : Disk) (l : DiskLaws d) where
  -- a file has nothing below it
  pub alone :
      (src : FilePath) (content other : Bytes) (rel : FilePath) (w : d.World)
      → l.tree w src ≡ some (file content)
      → l.tree w (rel ++ src) ≡ some (file other)
      → rel ≡ []
  alone src content other [] w here h = refl
  alone src content other (x ∷ rel) w here h =
      let up = above_is_folder d l x rel src w (λ gone. some≢none (sym h ∙ gone)) in
      let same : ◌≡◌ {A = Option Node} (some (file content)) (some folder) = sym here ∙ up in cc

  pub copied-done : (e : Option Bytes) → copied e ≡ done → e ≡ none
  copied-done none h = refl
  copied-done (some why) h = absurd (failed≢done why h)

  copy_file-done :
      (src dst : FilePath) (w : d.World)
      → (copy_file d src dst w).0 ≡ none
      → (content : Bytes) × (l.tree w src ≡ some (file content))
        × (l.tree (copy_file d src dst w).1 dst ≡ some (file content))
  unfolding copy_file
  copy_file-done src dst w h = elim (Outcome-cases ((d.read_file src w).0)) [
    | inl (e, bad) ↦ absurd (some≢none (rw (copy_file, ◌>>=◌, bad) at h))
    | inr (content, good) ↦ (
      content,
      l.read_file_gives src w content good,
      rw (copy_file, ◌>>=◌, good)
          (l.write_file_done dst content (d.read_file src w).1 (rw (copy_file, ◌>>=◌, good) at h)),
    )
  ]

  -- a file that was copied is mirrored
  pub mirrored_file :
      (src dst : FilePath) (w : d.World) (b : Tree) (content : Bytes)
      → l.tree w src ≡ some (file content)
      → b dst ≡ some (file content)
      → Mirrors src dst (l.tree w) b
  mirrored_file src dst w b content here there rel other h =
      let top = alone src content other rel w here h in
      let same : ◌≡◌ {A = Option Node} (some (file content)) (some (file other)) =
        sym here ∙ (rw top at h) in
      rw top (there ∙ same)

  pub there :
      (src rel : FilePath) (name content : Bytes) (w : d.World)
      → l.tree w (rel ++ name ∷ src) ≡ some (file content)
      → l.tree w (name ∷ src) ≢ none
  there src [] name content w h gone = some≢none (sym h ∙ gone)
  there src (x ∷ rel) name content w h gone =
      some≢none (sym (above_is_folder d l x rel (name ∷ src) w (λ e. some≢none (sym h ∙ e))) ∙ gone)

  -- the files below a directory are those below its entries
  Mirrors-entries :
      (src dst : FilePath) (w : d.World) (b : Tree)
      → l.tree w src ≡ some folder
      → ((name : Bytes)
          → l.tree w (name ∷ src) ≢ none
          → Mirrors (name ∷ src) (name ∷ dst) (l.tree w) b)
      → Mirrors src dst (l.tree w) b
  Mirrors-entries src dst w b here below rel content h = elim (last_of rel) [
    | inl empty ↦
        let same : ◌≡◌ {A = Option Node} (some folder) (some (file content)) =
          sym here ∙ (rw empty at h) in
        cc
    | inr (rel', name, split) ↦
        let h' : l.tree w (rel' ++ name ∷ src) ≡ some (file content) =
          rw (← append_assoc rel' (name ∷ []) src, ← split) h in
        rw (split, append_assoc rel' (name ∷ []) dst)
          (below name (there src rel' name content w h') rel' content h')
  ]

  pub Mirrors-stable :
      (src dst : FilePath) (a : Tree) (name name' : Bytes) (b c : Tree)
      → name' ≢ name
      → Frame (name' ∷ dst) b c
      → Mirrors (name ∷ src) (name ∷ dst) a b
      → Mirrors (name ∷ src) (name ∷ dst) a c
  Mirrors-stable src dst a name name' b c ne frame m rel content h =
      other_entry dst name name' b c rel ne frame ∙ m rel content h

  pub IsListed-Kept :
      (src : FilePath) (a b : Tree) (e : Entry) → Kept src a b → IsListed a src e → IsListed b src e
  IsListed-Kept src a b e kept (inl (is_dir, here)) =
      inl (is_dir, kept (e.name ∷ src) (e.name ∷ [], refl) ∙ here)
  IsListed-Kept src a b e kept (inr (no_dir, content, here)) =
      inr (no_dir, content, kept (e.name ∷ src) (e.name ∷ [], refl) ∙ here)

  listed_file :
      (a : Tree) (dir : FilePath) (e : Entry)
      → IsListed a dir e
      → e.is_dir ≡ false
      → (content : Bytes) × (a (e.name ∷ dir) ≡ some (file content))
  listed_file a dir e (inl (is_dir, _)) h = cc
  listed_file a dir e (inr (_, content, here)) h = (content, here)

  module _ (sub : FilePath → FilePath → Act d.World Copied)
      (sub-Frame : (src dst : FilePath) (w : d.World)
        → Frame dst (l.tree w) (l.tree (sub src dst w).1))
      (sub-Mirrors : (src dst : FilePath) (w : d.World)
        → Apart src dst
        → (sub src dst w).0 ≡ done
        → Mirrors src dst (l.tree w) (l.tree (sub src dst w).1)) where
    pub copy_entry-Mirrors :
        (src dst : FilePath) (e : Entry) (w : d.World)
        → Apart src dst
        → IsPlain e.name
        → IsListed (l.tree w) src e
        → (copy_entry d sub src dst e w).0 ≡ done
        → Mirrors (e.name ∷ src) (e.name ∷ dst) (l.tree w) (l.tree (copy_entry d sub src dst e w).1)
    unfolding copy_entry
    copy_entry-Mirrors src dst e w apart plain listed h =
        let from = child-plain src e.name plain in
        let to = child-plain dst e.name plain in
        elim (Bool-cases e.is_dir) [
          | inl yes_dir ↦
              rw (copy_entry, from, to, yes_dir)
                (sub-Mirrors (e.name ∷ src) (e.name ∷ dst) w (Apart-cons src dst e.name apart)
                  (rw (copy_entry, from, to, yes_dir) at h))
          | inr no_dir ↦
              let ended =
                copied-done ((copy_file d (e.name ∷ src) (e.name ∷ dst) w).0)
                  (rw (copy_entry, ◌>>=◌, from, to, no_dir) at h) in
              let (content, here, there) = copy_file-done (e.name ∷ src) (e.name ∷ dst) w ended in
              rw (copy_entry, ◌>>=◌, from, to, no_dir)
                (mirrored_file (e.name ∷ src) (e.name ∷ dst) w
                  (l.tree (copy_file d (e.name ∷ src) (e.name ∷ dst) w).1) content here there)
        ]

    copy_entry-IsStep :
        (src dst : FilePath) (a : Tree) (apart : Apart src dst) (e : Entry)
        → IsPlain e.name × IsListed a src e
        → IsStep d l src dst a apart
            (λ name b. Mirrors (name ∷ src) (name ∷ dst) a b)
            (Mirrors-stable src dst a)
            (copy_entry d sub src dst)
            e
    copy_entry-IsStep src dst a apart e (plain, listed) w kept = (
      copy_entry-Frame d l sub sub-Frame src dst e w plain,
      λ ended.
          fold (e.name ∷ src) (e.name ∷ dst) a (l.tree w) (l.tree (copy_entry d sub src dst e w).1)
            (Kept-cons src e.name a (l.tree w) kept)
            (copy_entry-Mirrors src dst e w apart plain
              (IsListed-Kept src a (l.tree w) e kept listed) ended),
    )

  -- If neither `src` nor `dst` is in the other and `copyDir` reports no error, each file below
  -- `src`, at any depth, is at the same place below `dst` with its content.
  pub copy_dir-Mirrors :
      (depth : ℕ) (src dst : FilePath) (w : d.World)
      → Apart src dst
      → (copy_dir d depth src dst w).0 ≡ done
      → Mirrors src dst (l.tree w) (l.tree (copy_dir d depth src dst w).1)
  unfolding copy_dir
  copy_dir-Mirrors zero src dst w apart h = absurd (deeper≢done h)
  copy_dir-Mirrors (suc depth) src dst w apart h =
      let a = l.tree w in
      let w₁ = (d.read_dir src w).1 in
      let w₂ = (d.mkdir_all dst w₁).1 in
      let f = copy_entry d (copy_dir d depth) src dst in
      elim (Outcome-cases ((d.read_dir src w).0)) [
        | inl (e, bad) ↦ absurd (failed≢done e (rw (copy_dir, ◌>>=◌, bad) at h))
        | inr (entries, listed) ↦ elim (Option-cases ((d.mkdir_all dst w₁).0)) [
          | inr (e, bad) ↦ absurd (failed≢done e (rw (copy_dir, ◌>>=◌, listed, bad) at h))
          | inl good ↦
              rw (copy_dir, ◌>>=◌, listed, good)
                (Mirrors-entries src dst w (l.tree (each d f entries w₂).1)
                  (l.read_dir_folder src w entries listed)
                  (λ name there.
                    each-gives d l src dst a apart (λ n b. Mirrors (n ∷ src) (n ∷ dst) a b)
                      (Mirrors-stable src dst a) f entries name
                      (All-weaken
                        (copy_entry-IsStep (copy_dir d depth) (copy_dir-Frame d l depth)
                          (copy_dir-Mirrors depth) src dst a apart)
                        entries (l.read_dir_gives src w entries listed))
                      w₂
                      (Frame-Kept src dst a (l.tree w₂) apart
                        (rw (← l.read_dir_keeps src w) (mkdir_all-Frame d l dst w₁)))
                      (rw (copy_dir, ◌>>=◌, listed, good) at h)
                      (inl (l.read_dir_all src w entries name listed there))))
        ]
      ]
