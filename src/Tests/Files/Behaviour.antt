-- ===== src/Tests/Files/Behaviour.antt =====
-- That the disk in memory behaves as documented.
use atlas_idp.Common.{
  ◌≡◌, ◌≢◌, refl, sym, ap, ◌∙◌, inl, inr, Bool, true, false, ◌&&◌, not, Option, none, some, List,
  [], ◌∷◌, Bytes, ◌==◌, All, arith, Bool-cases, some≢none, if◌then◌else◌,
}
use mathlib.Core.Path.{subst}
use atlas_idp.Text.{bytes_eq}
use atlas_idp.Text.Laws.{bytes_eq_iff}
use atlas_idp.Atlasctl.Kube.{Outcome, fine, fault}
use atlas_idp.Atlasctl.Disk.{FilePath, Entry, found, not_exist}
use atlas_idp.Atlasctl.Disk.Paths.{Apart, IsPlain, IsUnder}
use atlas_idp.Atlasctl.Disk.Laws.{Tree, Node, file, folder, IsListed, Names, DiskLaws, IsSeen}
use atlas_idp.Tests.Files.{
  names, is_under, is_name, is_folder, is_there, tree, read, listing, remove_tree, entries_of, disk,
}
use atlas_idp.Tests.Files.Holds.{IsUnder-is_under, is_folder-true, tree-above}
use atlas_idp.Tests.Files.Fulfil.{
  Node-cases, cut-outside, cut-inside, make_all-frame, make_all-keeps, write-frame, write-done,
  remove-frame, remove-done, remove-gone, tree-gone_all,
}

-- A name of at least three bytes without a slash.
abbrev no_slash : Bytes → Bool
no_slash [] = true
no_slash (c ∷ s) = not (c == b'/') && no_slash s

abbrev is_plain : Bytes → Bool
is_plain (c ∷ d ∷ e ∷ s) = no_slash (c ∷ d ∷ e ∷ s)
is_plain _ = false

no_slash-All : (s : Bytes) → no_slash s ≡ true → All (λ c. c ≢ b'/') s
no_slash-All [] h = tt
no_slash-All (c ∷ s) h = (ground (arith, h), no_slash-All s (ground (arith, h)))

pub is_plain-IsPlain : (s : Bytes) → is_plain s ≡ true → IsPlain s
is_plain-IsPlain [] h = cc
is_plain-IsPlain (c ∷ []) h = cc
is_plain-IsPlain (c ∷ d ∷ []) h = cc
is_plain-IsPlain (c ∷ d ∷ e ∷ s) h = record {
  entered = λ dir. refl;
  without_slash = no_slash-All (c ∷ d ∷ e ∷ s) h;
}

-- What os.ReadDir gives of some of the names.
pub entries_of-IsListed :
    (w : Tree) (p : FilePath) (ns : List Bytes)
    → All (λ n. is_plain n ≡ true) ns
    → All (λ e. IsPlain e.name × IsListed (tree w) p e) (entries_of w p ns)
entries_of-IsListed w p [] _ = tt
entries_of-IsListed w p (n ∷ ns) (plain, plains) =
    let rest = entries_of-IsListed w p ns plains in
    elim (Node-cases (tree w (n ∷ p))) [
      | inl absent ↦ rw (absent, All) rest
      | inr (inl dir) ↦ rw (dir, All) ((is_plain-IsPlain n plain, inl (refl, dir)), rest)
      | inr (inr (content, here)) ↦
          rw (here, All) ((is_plain-IsPlain n plain, inr (refl, content, here)), rest)
    ]

pub entries_of-Names :
    (w : Tree) (p : FilePath) (name : Bytes) (ns : List Bytes)
    → is_name name ns ≡ true
    → tree w (name ∷ p) ≢ none
    → Names name (entries_of w p ns)
unfolding is_name
entries_of-Names w p name [] named there = cc
entries_of-Names w p name (n ∷ ns) named there = elim (Bool-cases (bytes_eq n name)) [
  | inl same ↦
      let same' = (bytes_eq_iff n name).0 same in
      elim (Node-cases (tree w (n ∷ p))) [
        | inl absent ↦ absurd (there (ap (λ m. tree w (m ∷ p)) (sym same') ∙ absent))
        | inr (inl dir) ↦ rw (dir, Names) (inl same')
        | inr (inr (content, here)) ↦ rw (here, Names) (inl same')
      ]
  | inr other ↦
      let later = entries_of-Names w p name ns (rw (is_name, other) at named) there in
      elim (Node-cases (tree w (n ∷ p))) [
        | inl absent ↦ rw (absent, Names) later
        | inr (inl dir) ↦ rw (dir, Names) (inr later)
        | inr (inr (content, here)) ↦ rw (here, Names) (inr later)
      ]
]

fine-inj : {A : Type 0} {a b : A} → ◌≡◌ {A = Outcome A} (fine a) (fine b) → a ≡ b
fine-inj h = cc

fault≢fine : {A : Type 0} {e : Bytes} {a : A} → ◌≢◌ {A = Outcome A} (fault e) (fine a)
fault≢fine h = cc

pub listing-gives :
    (p : FilePath) (w : Tree) (entries : List Entry)
    → listing p w ≡ fine entries
    → (tree w p ≡ some folder) × (entries_of w p names ≡ entries)
unfolding listing
listing-gives p w entries h = elim (Bool-cases (is_folder (tree w p))) [
  | inr other ↦ absurd (fault≢fine (rw (listing, other) at h))
  | inl dir ↦ (is_folder-true (tree w p) dir, fine-inj (rw (listing, dir) at h))
]

pub read-gives :
    (p : FilePath) (w : Tree) (content : Bytes)
    → read p w ≡ fine content
    → tree w p ≡ some (file content)
unfolding read
read-gives p w content h = elim (Node-cases (tree w p)) [
  | inl absent ↦ absurd (fault≢fine (rw (read, absent) at h))
  | inr (inl dir) ↦ absurd (fault≢fine (rw (read, dir) at h))
  | inr (inr (text, here)) ↦
      let same = fine-inj (rw (read, here) at h) in here ∙ ap (λ c. some (file c)) same
]

pub remove_tree-frame :
    (p q : FilePath) (w : Tree) → ¬ IsUnder p q → tree (remove_tree p w).1 q ≡ tree w q
unfolding remove_tree
remove_tree-frame [] q w out = refl
remove_tree-frame (n ∷ p) q w out = cut-outside (n ∷ p) w q out

pub remove_tree-done :
    (p q : FilePath) (w : Tree)
    → (remove_tree p w).0 ≡ none
    → IsUnder p q
    → tree (remove_tree p w).1 q ≡ none
unfolding remove_tree
remove_tree-done [] q w h under = cc
remove_tree-done (n ∷ p) q w h under = cut-inside n p w q under

pub is_there-found :
    (item : Option Node) → item ≢ none → (if is_there item then found else not_exist) ≡ found
is_there-found none h = absurd (h refl)
is_there-found (some _) h = refl

pub found≢not_exist : found ≢ not_exist
found≢not_exist h = cc

pub names-plain : All (λ n. is_plain n ≡ true) names
names-plain = (
  refl,
  (refl, (refl, (refl, (refl, (refl, (refl, (refl, (refl, (refl, (refl, (refl, tt))))))))))),
)

unfoldable pub disk-Laws : DiskLaws disk
disk-Laws = record {
  tree = tree;
  in_folder = λ name p w there. (tree-above w name p there).0;
  stat_keeps = λ p w. refl;
  stat_there = λ p w there gone. found≢not_exist (sym (is_there-found (tree w p) there) ∙ gone);
  mkdir_all_frame = λ p q w out. make_all-frame p q w out;
  mkdir_all_keeps = λ p q w there. make_all-keeps p q w there;
  read_file_keeps = λ p w. refl;
  read_file_gives = λ p w content h. read-gives p w content h;
  write_file_frame = λ p q content w ne. write-frame p q content w ne;
  write_file_done = λ p content w h. write-done p content w h;
  read_dir_keeps = λ p w. refl;
  read_dir_folder = λ p w entries h. (listing-gives p w entries h).0;
  read_dir_gives = λ p w entries h.
      rw (listing-gives p w entries h).1 at (entries_of-IsListed w p names names-plain);
  read_dir_all = λ p w entries name h there.
      rw (listing-gives p w entries h).1 at
        (entries_of-Names w p name names (tree-above w name p there).1 there);
  remove_frame = λ p q w ne. remove-frame p q w ne;
  remove_done = λ p w h. remove-done p w h;
  remove_gone = λ p q w h. remove-gone p q w h;
  remove_all_frame = λ p q w out. remove_tree-frame p q w out;
  remove_all_done = λ p q w h under. remove_tree-done p q w h under;
  remove_all_gone = λ p q w h. tree-gone_all p q w h;
}

-- os.Stat finds what is there.
pub disk-IsSeen : (p : FilePath) → IsSeen disk disk-Laws p
unfolding disk-Laws
disk-IsSeen p w there = is_there-found (tree w p) there

-- whether a path lies in another is computed
pub outside_of : (p q : FilePath) → is_under p q ≡ false → ¬ IsUnder p q
outside_of p q other under =
    let same : true ≡ false = sym (IsUnder-is_under p q under) ∙ other in cc

pub Apart-of : (p q : FilePath) → is_under p q ≡ false → is_under q p ≡ false → Apart p q
Apart-of p q out out' = (outside_of p q out, outside_of q p out')

-- what holds of each of some names holds of a name that is one of them
named_one :
    (P : Bytes → Type 0) (n : Bytes) (ns : List Bytes) → All P ns → is_name n ns ≡ true → P n
unfolding is_name
named_one P n [] _ h = cc
named_one P n (m ∷ ms) (p, ps) h = elim (Bool-cases (bytes_eq m n)) [
  | inl same ↦ subst P ((bytes_eq_iff m n).0 same) p
  | inr other ↦ named_one P n ms ps (rw (is_name, other) at h)
]

-- a directory in which no name is one of a directory
pub flat_of :
    (w : Tree) (p : FilePath)
    → All (λ n. is_folder (tree w (n ∷ p)) ≡ false) names
    → (name : Bytes) → tree w (name ∷ p) ≢ some folder
flat_of w p none_is name here =
    let named = (tree-above w name p (λ gone. some≢none (sym here ∙ gone))).1 in
    let shut = named_one (λ n. is_folder (tree w (n ∷ p)) ≡ false) name names none_is named in
    let same : true ≡ false = sym (ap is_folder here) ∙ shut in cc

-- every directory can be read
pub disk-readable :
    (p : FilePath) (w : Tree)
    → tree w p ≡ some folder
    → (entries : List Entry) × ((disk.read_dir p w).0 ≡ fine entries)
unfolding listing
disk-readable p w here = (entries_of w p names, rw (listing, here) refl)
