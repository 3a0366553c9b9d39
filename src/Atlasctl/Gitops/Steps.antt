-- ===== src/Atlasctl/Gitops/Steps.antt =====
-- The steps of the loops over the entries of a directory in
-- tools/atlasctl/pkg/gitops/gitops.go: what each gives of its entry stays true.
use atlas_idp.Common.{
  ◌≡◌, ◌≢◌, ◌⊎◌, refl, sym, ap, ◌∙◌, none, some, List, [], ◌∷◌, ◌++◌, append_assoc, Bytes, Act,
  ◌>>=◌, All, arith, Bool-cases, some≢none, inl, inr,
}
use mathlib.Core.Path.{subst}
use atlas_idp.Text.{bytes_eq}
use atlas_idp.Text.Laws.{bytes_eq_iff}
use atlas_idp.Atlasctl.Kube.{fine}
use atlas_idp.Atlasctl.Disk.{FilePath, Entry, Disk}
use atlas_idp.Atlasctl.Disk.Paths.{Apart, same_entry}
use atlas_idp.Atlasctl.Disk.Laws.{Tree, file, folder, Names, DiskLaws}
use atlas_idp.Atlasctl.Gitops.{Copied, done, deeper, failed, each}
use atlas_idp.Atlasctl.Gitops.Walk.{Frame, Frame-cons, Copied-cases}
use atlas_idp.Atlasctl.Gitops.Copy.{Kept, Kept-trans, Frame-Kept}

-- Each file at `src` or below is at the same place from `dst`, with its content.
abbrev pub Mirrors : FilePath → FilePath → Tree → Tree → Type 0
Mirrors src dst a b =
    (rel : FilePath) (content : Bytes)
    → a (rel ++ src) ≡ some (file content)
    → b (rel ++ dst) ≡ some (file content)

-- What changes one child leaves what is at and below another.
pub other_entry :
    (dst : FilePath) (name name' : Bytes) (a b : Tree) (rel : FilePath)
    → name' ≢ name
    → Frame (name' ∷ dst) a b
    → b (rel ++ name ∷ dst) ≡ a (rel ++ name ∷ dst)
other_entry dst name name' a b rel ne frame =
    frame (rel ++ name ∷ dst) (λ (rel', same). ne (sym (same_entry rel rel' dst name name' same)))
      (λ (rel', same). ne (
        same_entry [] (rel' ++ rel) dst name' name
          (same ∙ sym (append_assoc rel' rel (name ∷ dst)))))

pub failed≢done : (why : Bytes) → failed why ≢ done
failed≢done why h = cc

pub deeper≢done : deeper ≢ done
deeper≢done h = cc

pub fold :
    (src dst : FilePath) (a b c : Tree) → Kept src a b → Mirrors src dst b c → Mirrors src dst a c
fold src dst a b c kept m rel content h = m rel content (kept (rel ++ src) (rel, refl) ∙ h)

pub last_of :
    (rel : FilePath) → (rel ≡ []) ⊎ ((rel' : FilePath) × (name : Bytes) × (rel ≡ rel' ++ name ∷ []))
last_of [] = inl refl
last_of (x ∷ rel) = elim (last_of rel) [
  | inl empty ↦ inr ([], x, ap (λ (r : FilePath). x ∷ r) empty)
  | inr (rel', name, same) ↦ inr (x ∷ rel', name, ap (λ (r : FilePath). x ∷ r) same)
]

module _ (d : Disk) (l : DiskLaws d) where
  pub above_is_folder :
      (x : Bytes) (rel p : FilePath) (w : d.World)
      → l.tree w (x ∷ (rel ++ p)) ≢ none
      → l.tree w p ≡ some folder
  above_is_folder x [] p w h = l.in_folder x p w h
  above_is_folder x (y ∷ rel) p w h =
      above_is_folder y rel p w
        (λ gone. some≢none (sym (l.in_folder x (y ∷ (rel ++ p)) w h) ∙ gone))

  module _ (src dst : FilePath) (a : Tree) (apart : Apart src dst) (P : Bytes → Tree → Type 0)
      (stable : (name name' : Bytes) (b c : Tree)
        → name' ≢ name
        → Frame (name' ∷ dst) b c
        → P name b
        → P name c)
      (f : Entry → Act d.World Copied) where
    -- A step changes only its own entry, and gives `P` of its name if it succeeds.
    abbrev pub IsStep : Entry → Type 0
    IsStep e =
        (w : d.World)
        → Kept src a (l.tree w)
        → Frame (e.name ∷ dst) (l.tree w) (l.tree (f e w).1)
          × ((f e w).0 ≡ done → P e.name (l.tree (f e w).1))

    -- what is known of a name after a step
    next :
        (e : Entry) (entries : List Entry) (name : Bytes) (b c : Tree)
        → Frame (e.name ∷ dst) b c
        → P e.name c
        → Names name (e ∷ entries) ⊎ P name b
        → Names name entries ⊎ P name c
    next e entries name b c frame p known = elim (Bool-cases (bytes_eq e.name name)) [
      | inl same ↦ inr (subst (λ n. P n c) ((bytes_eq_iff e.name name).0 same) p)
      | inr other ↦
          let ne : e.name ≢ name =
            (λ same. ground (arith, other, (bytes_eq_iff e.name name).1 same)) in
          elim known [
            | inl (inl same) ↦ absurd (ne same)
            | inl (inr later) ↦ inl later
            | inr q ↦ inr (stable name e.name b c ne frame q)
          ]
    ]

    -- A loop that succeeds gives `P` of each name, and keeps it where it was before.
    pub each-gives :
        (entries : List Entry) (name : Bytes)
        → All IsStep entries
        → (w : d.World) → Kept src a (l.tree w)
        → (each d f entries w).0 ≡ done
        → Names name entries ⊎ P name (l.tree w)
        → P name (l.tree (each d f entries w).1)
    unfolding each
    each-gives [] name _ w kept h (inl none_there) = absurd none_there
    each-gives [] name _ w kept h (inr p) = p
    each-gives (e ∷ entries) name (step, steps) w kept h known =
        let w' = (f e w).1 in
        let (frame, gives) = step w kept in
        let kept' =
          Kept-trans src a (l.tree w) (l.tree w') kept
            (Frame-Kept src dst _ _ apart (Frame-cons dst e.name _ _ frame)) in
        elim (Copied-cases ((f e w).0)) [
          | inr (inl ended) ↦ absurd (deeper≢done (rw (each, ◌>>=◌, ended) at h))
          | inr (inr (why, ended)) ↦ absurd (failed≢done why (rw (each, ◌>>=◌, ended) at h))
          | inl ended ↦
              let h' = (rw (each, ◌>>=◌, ended) at h) in
              rw (each, ◌>>=◌, ended)
                (each-gives entries name steps w' kept' h'
                  (next e entries name (l.tree w) (l.tree w') frame (gives ended) known))
        ]

    -- The loop over what os.ReadDir gives of `src`.
    pub listing_gives :
        (w : d.World) (entries : List Entry) (name : Bytes)
        → (d.read_dir src w).0 ≡ fine entries
        → Kept src a (l.tree w)
        → All IsStep entries
        → l.tree w (name ∷ src) ≢ none
        → (each d f entries (d.read_dir src w).1).0 ≡ done
        → P name (l.tree (each d f entries (d.read_dir src w).1).1)
    listing_gives w entries name listed kept steps there h =
        each-gives entries name steps (d.read_dir src w).1 (rw l.read_dir_keeps kept) h
          (inl (l.read_dir_all src w entries name listed there))
