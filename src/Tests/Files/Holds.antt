-- ===== src/Tests/Files/Holds.antt =====
-- That the disk in memory behaves as documented.
use atlas_idp.Common.{
  ◌≡◌, ◌≢◌, ◌↔◌, refl, sym, ap, ◌∙◌, inl, inr, true, false, ◌&&◌, Option, none, some, [], ◌∷◌, ◌++◌,
  Bytes, length, arith, Bool-cases,
}
use atlas_idp.Text.Laws.{bytes_eq_iff}
use atlas_idp.Atlasctl.Disk.{FilePath}
use atlas_idp.Atlasctl.Disk.Paths.{IsUnder, length-append}
use atlas_idp.Atlasctl.Disk.Laws.{Tree, Node, file, folder}
use atlas_idp.Tests.Files.{names, path_eq, is_under, is_name, is_folder, tree, put}

path_eq_iff : (p q : FilePath) → (path_eq p q ≡ true) ↔ (p ≡ q)
unfolding path_eq
path_eq_iff [] [] = (λ _. refl, λ _. refl)
path_eq_iff [] (y ∷ q) = (λ h. cc, λ h. cc)
path_eq_iff (x ∷ p) [] = (λ h. cc, λ h. cc)
path_eq_iff (x ∷ p) (y ∷ q) =
    let head = bytes_eq_iff x y in
    let tail = path_eq_iff p q in
    (λ h. ground (arith, head.0, tail.0), λ h. ground (arith, head.1, tail.1))

pub is_under-true : (p q : FilePath) → is_under p q ≡ true → IsUnder p q
unfolding is_under
is_under-true p [] h = ([], sym ((path_eq_iff p []).0 h))
is_under-true p (y ∷ q) h = elim (Bool-cases (path_eq p (y ∷ q))) [
  | inl same ↦ ([], sym ((path_eq_iff p (y ∷ q)).0 same))
  | inr other ↦
      let (rel, below) = is_under-true p q (rw (is_under, other) at h) in
      (y ∷ rel, ap (λ (r : FilePath). y ∷ r) below)
]

pub IsUnder-is_under : (p q : FilePath) → IsUnder p q → is_under p q ≡ true
unfolding is_under
IsUnder-is_under p [] ([], same) = (path_eq_iff p []).1 (sym same)
IsUnder-is_under p [] (x ∷ rel, same) = cc
IsUnder-is_under p (y ∷ q) ([], same) = rw ((path_eq_iff p (y ∷ q)).1 (sym same)) refl
IsUnder-is_under p (y ∷ q) (x ∷ rel, same) =
    let below = IsUnder-is_under p q (rel, cc) in ground (arith, below)

-- worlds that agree outside of a path have the same nodes there
pub outside :
    (p : FilePath) (a b : Tree)
    → ((q : FilePath) → is_under p q ≡ false → a q ≡ b q)
    → (q : FilePath) → is_under p q ≡ false
    → tree a q ≡ tree b q
unfolding tree is_under
outside p a b agree [] h = refl
outside p a b agree (y ∷ q) h =
    let above : is_under p q ≡ false = ground (arith, h) in
    rw (outside p a b agree q above, agree (y ∷ q) h)

pub tree-none : (w : Tree) (n : Bytes) (p : FilePath) → w (n ∷ p) ≡ none → tree w (n ∷ p) ≡ none
unfolding tree
tree-none w n p h = elim (Bool-cases (is_folder (tree w p) && is_name n names)) [
  | inl shown ↦ rw (tree, shown, h) refl
  | inr hidden ↦ rw (tree, hidden) refl
]

pub is_folder-true : (n : Option Node) → is_folder n ≡ true → n ≡ some folder
is_folder-true (some folder) h = refl
is_folder-true (some (file c)) h = cc
is_folder-true none h = cc

pub tree-above :
    (w : Tree) (n : Bytes) (p : FilePath)
    → tree w (n ∷ p) ≢ none
    → (tree w p ≡ some folder) × (is_name n names ≡ true)
unfolding tree
tree-above w n p h = elim (Bool-cases (is_folder (tree w p))) [
  | inr other ↦ absurd (h (rw (tree, other) refl))
  | inl above ↦ elim (Bool-cases (is_name n names)) [
    | inl named ↦ (is_folder-true (tree w p) above, named)
    | inr other ↦ absurd (h (rw (tree, above, other) refl))
  ]
]

-- what is below anything else than a directory is nothing
tree-below :
    (w : Tree) (x : Bytes) (rel p : FilePath)
    → is_folder (tree w p) ≡ false
    → tree w (x ∷ (rel ++ p)) ≡ none
unfolding tree
tree-below w x [] p h = rw (tree, h) refl
tree-below w x (y ∷ rel) p h = rw (tree, tree-below w y rel p h) refl

not_same : (p q : FilePath) → is_under p q ≡ false → path_eq p q ≡ false
unfolding is_under
not_same p [] h = h
not_same p (y ∷ q) h = ground (arith, h)

put-outside :
    (p : FilePath) (item : Option Node) (w : Tree) (q : FilePath)
    → is_under p q ≡ false
    → tree (put p item w) q ≡ tree w q
unfolding put
put-outside p item w q h =
    outside p (put p item w) w (λ q' out. rw (put, not_same p q' out, out) refl) q h

put-inside :
    (p : FilePath) (item : Option Node) (w : Tree) (q : FilePath)
    → is_under p q ≡ true
    → q ≢ p
    → put p item w q ≡ none
unfolding put
put-inside p item w q under ne = elim (Bool-cases (path_eq p q)) [
  | inl same ↦ absurd (ne (sym ((path_eq_iff p q).0 same)))
  | inr other ↦ rw (put, other, under) refl
]

pub closed_below :
    (w : Tree) (p q : FilePath)
    → is_folder (tree w p) ≡ false
    → q ≢ p
    → IsUnder p q
    → tree w q ≡ none
closed_below w p q closed ne ([], same) = absurd (ne same)
closed_below w p q closed ne (x ∷ rel, same) = ap (tree w) same ∙ tree-below w x rel p closed

pub put-frame :
    (p : FilePath) (item : Option Node) (w : Tree) (q : FilePath)
    → is_folder (tree w p) ≡ false
    → q ≢ p
    → tree (put p item w) q ≡ tree w q
put-frame p item w [] closed ne = unfold tree in refl
put-frame p item w (y ∷ q) closed ne = elim (Bool-cases (is_under p (y ∷ q))) [
  | inr out ↦ put-outside p item w (y ∷ q) out
  | inl under ↦
      tree-none (put p item w) y q (put-inside p item w (y ∷ q) under ne)
      ∙ sym (closed_below w p (y ∷ q) closed ne (is_under-true p (y ∷ q) under))
]

no_loop : (n : Bytes) (p : FilePath) → ¬ IsUnder (n ∷ p) p
no_loop n p (rel, same) =
    let long = ap length same in let more = length-append rel (n ∷ p) in ground (arith, long, more)

-- a directory is not in what is in it
pub above_child : (p : FilePath) (n : Bytes) → is_under (n ∷ p) p ≡ false
above_child p n = elim (Bool-cases (is_under (n ∷ p) p)) [
  | inr out ↦ out
  | inl under ↦ absurd (no_loop n p (is_under-true (n ∷ p) p under))
]

pub put-tree :
    (n : Bytes) (p : FilePath) (item : Option Node) (w : Tree)
    → is_folder (tree w p) ≡ true
    → is_name n names ≡ true
    → tree (put (n ∷ p) item w) (n ∷ p) ≡ item
unfolding tree put
put-tree n p item w above named = rw (
  tree,
  put-outside (n ∷ p) item w p (above_child p n),
  above,
  named,
  put,
  (path_eq_iff (n ∷ p) (n ∷ p)).1 refl,
)
