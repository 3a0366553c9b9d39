-- ===== src/Tests/Files/Fulfil.antt =====
-- The laws of the disk in memory.
use atlas_idp.Common.{
  ◌≡◌, ◌≢◌, ◌⊎◌, refl, sym, ap, ◌∙◌, inl, inr, true, false, ◌&&◌, Option, none, some, [], ◌∷◌,
  Bytes, Bool-cases, Option-cases, some≢none,
}
use atlas_idp.Atlasctl.Disk.{FilePath}
use atlas_idp.Atlasctl.Disk.Paths.{IsUnder}
use atlas_idp.Atlasctl.Disk.Laws.{Tree, Node, file, folder}
use atlas_idp.Tests.Files.{
  names, is_under, is_name, is_folder, tree, cut, make_all, write, remove_file, remove_tree,
}
use atlas_idp.Tests.Files.Holds.{
  is_under-true, IsUnder-is_under, outside, tree-none, put-frame, put-tree, closed_below,
}

pub Node-cases :
    (n : Option Node)
    → (n ≡ none) ⊎ ((n ≡ some folder) ⊎ ((content : Bytes) × (n ≡ some (file content))))
Node-cases none = inl refl
Node-cases (some folder) = inr (inl refl)
Node-cases (some (file content)) = inr (inr (content, refl))

not_under : (p q : FilePath) → ¬ IsUnder p q → is_under p q ≡ false
not_under p q out = elim (Bool-cases (is_under p q)) [
  | inl under ↦ absurd (out (is_under-true p q under))
  | inr other ↦ other
]

pub cut-outside :
    (p : FilePath) (w : Tree) (q : FilePath) → ¬ IsUnder p q → tree (cut p w) q ≡ tree w q
unfolding cut
cut-outside p w q out =
    outside p (cut p w) w (λ q' other. rw (cut, other) refl) q (not_under p q out)

pub cut-inside :
    (n : Bytes) (p : FilePath) (w : Tree) (q : FilePath)
    → IsUnder (n ∷ p) q
    → tree (cut (n ∷ p) w) q ≡ none
unfolding cut
cut-inside n p w [] ([], same) = cc
cut-inside n p w [] (x ∷ rel, same) = cc
cut-inside n p w (y ∷ q) under =
    tree-none (cut (n ∷ p) w) y q (rw (cut, IsUnder-is_under (n ∷ p) (y ∷ q) under) refl)

-- nothing new is there
cut-gone : (p : FilePath) (w : Tree) (q : FilePath) → tree w q ≡ none → tree (cut p w) q ≡ none
cut-gone p w [] h = unfold tree in h
cut-gone p w (y ∷ q) h = elim (Bool-cases (is_under p (y ∷ q))) [
  | inl under ↦ tree-none (cut p w) y q (unfold cut in rw (cut, under) refl)
  | inr other ↦ unfold cut in outside p (cut p w) w (λ q' out. rw (cut, out) refl) (y ∷ q) other ∙ h
]

pub make_all-frame :
    (p q : FilePath) (w : Tree) → ¬ IsUnder q p → tree (make_all p w).1 q ≡ tree w q
unfolding make_all
make_all-frame [] q w out = refl
make_all-frame (n ∷ p) q w out =
    let w' = (make_all p w).1 in
    let up =
      make_all-frame p q w (λ (rel, same). out (n ∷ rel, ap (λ (r : FilePath). n ∷ r) same)) in
    elim (Option-cases ((make_all p w).0)) [
      | inr (e, bad) ↦ rw (make_all, bad) up
      | inl made ↦ elim (Node-cases (tree w' (n ∷ p))) [
        | inr (inl there) ↦ rw (make_all, made, there) up
        | inr (inr (content, there)) ↦ rw (make_all, made, there) up
        | inl absent ↦ elim (Bool-cases (is_folder (tree w' p) && is_name n names)) [
          | inr other ↦ rw (make_all, made, absent, other) up
          | inl fit ↦
              rw (make_all, made, absent, fit)
                (put-frame (n ∷ p) (some folder) w' q (rw absent refl) (λ same. out ([], sym same))
                  ∙ up)
        ]
      ]
    ]

pub make_all-keeps :
    (p q : FilePath) (w : Tree) → tree w q ≢ none → tree (make_all p w).1 q ≡ tree w q
unfolding make_all
make_all-keeps [] q w there = refl
make_all-keeps (n ∷ p) q w there =
    let w' = (make_all p w).1 in
    let up = make_all-keeps p q w there in
    elim (Option-cases ((make_all p w).0)) [
      | inr (e, bad) ↦ rw (make_all, bad) up
      | inl made ↦ elim (Node-cases (tree w' (n ∷ p))) [
        | inr (inl stands) ↦ rw (make_all, made, stands) up
        | inr (inr (content, stands)) ↦ rw (make_all, made, stands) up
        | inl absent ↦ elim (Bool-cases (is_folder (tree w' p) && is_name n names)) [
          | inr other ↦ rw (make_all, made, absent, other) up
          | inl fit ↦
              rw (make_all, made, absent, fit)
                (put-frame (n ∷ p) (some folder) w' q (rw absent refl)
                    (λ same. there (sym up ∙ ap (tree w') same ∙ absent))
                  ∙ up)
        ]
      ]
    ]

pub write-frame :
    (p q : FilePath) (content : Bytes) (w : Tree) → q ≢ p → tree (write p content w).1 q ≡ tree w q
unfolding write
write-frame [] q content w ne = refl
write-frame (n ∷ p) q content w ne = elim (Bool-cases (is_folder (tree w (n ∷ p)))) [
  | inl dir ↦ rw (write, dir) refl
  | inr open_slot ↦ elim (Bool-cases (is_folder (tree w p) && is_name n names)) [
    | inr other ↦ rw (write, open_slot, other) refl
    | inl fit ↦
        rw (write, open_slot, fit) (put-frame (n ∷ p) (some (file content)) w q open_slot ne)
  ]
]

pub write-done :
    (p : FilePath) (content : Bytes) (w : Tree)
    → (write p content w).0 ≡ none
    → tree (write p content w).1 p ≡ some (file content)
unfolding write
write-done [] content w h = cc
write-done (n ∷ p) content w h = elim (Bool-cases (is_folder (tree w (n ∷ p)))) [
  | inl dir ↦ absurd (some≢none (rw (write, dir) at h))
  | inr open_slot ↦ elim (Bool-cases (is_folder (tree w p))) [
    | inr other ↦ absurd (some≢none (rw (write, open_slot, other) at h))
    | inl above ↦ elim (Bool-cases (is_name n names)) [
      | inr other ↦ absurd (some≢none (rw (write, open_slot, above, other) at h))
      | inl named ↦
          rw (write, open_slot, above, named) (put-tree n p (some (file content)) w above named)
    ]
  ]
]

-- a file that is cut takes nothing else with it
cut_at :
    (p q : FilePath) (w : Tree) (content : Bytes)
    → tree w p ≡ some (file content)
    → q ≢ p
    → is_under p q ≡ true
    → tree (cut p w) q ≡ tree w q
cut_at p q w content here ne under =
    let below = is_under-true p q under in
    let bare = closed_below w p q (rw here refl) ne below in cut-gone p w q bare ∙ sym bare

cut_here :
    (p : FilePath) (w : Tree) (content : Bytes)
    → tree w p ≡ some (file content)
    → tree (cut p w) p ≡ none
cut_here [] w content here = unfold tree in cc
cut_here (n ∷ p) w content here = cut-inside n p w (n ∷ p) ([], refl)

pub remove-frame : (p q : FilePath) (w : Tree) → q ≢ p → tree (remove_file p w).1 q ≡ tree w q
unfolding remove_file
remove-frame p q w ne = elim (Node-cases (tree w p)) [
  | inl absent ↦ rw (remove_file, absent) refl
  | inr (inl dir) ↦ rw (remove_file, dir) refl
  | inr (inr (content, here)) ↦
      rw (remove_file, here)
        (elim (Bool-cases (is_under p q)) [
          | inr out ↦ outside p (cut p w) w (λ q' o. unfold cut in rw (cut, o) refl) q out
          | inl under ↦ cut_at p q w content here ne under
        ])
]

pub remove-done :
    (p : FilePath) (w : Tree) → (remove_file p w).0 ≡ none → tree (remove_file p w).1 p ≡ none
unfolding remove_file
remove-done p w h = elim (Node-cases (tree w p)) [
  | inl absent ↦ absurd (some≢none (rw (remove_file, absent) at h))
  | inr (inl dir) ↦ absurd (some≢none (rw (remove_file, dir) at h))
  | inr (inr (content, here)) ↦ rw (remove_file, here) (cut_here p w content here)
]

pub remove-gone : (p q : FilePath) (w : Tree) → tree w q ≡ none → tree (remove_file p w).1 q ≡ none
unfolding remove_file
remove-gone p q w h = elim (Node-cases (tree w p)) [
  | inl absent ↦ rw (remove_file, absent) h
  | inr (inl dir) ↦ rw (remove_file, dir) h
  | inr (inr (content, here)) ↦ rw (remove_file, here) (cut-gone p w q h)
]

pub tree-gone_all :
    (p q : FilePath) (w : Tree) → tree w q ≡ none → tree (remove_tree p w).1 q ≡ none
unfolding remove_tree
tree-gone_all [] q w h = h
tree-gone_all (n ∷ p) q w h = cut-gone (n ∷ p) w q h
