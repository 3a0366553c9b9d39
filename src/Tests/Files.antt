-- ===== src/Tests/Files.antt =====
-- A disk in memory for the tests: what stands at each path, where only some names are used.
mod Holds
mod Fulfil
pub mod Behaviour
use atlas_idp.Common.{
  ◌≡◌, ◌≢◌, ◌⊎◌, ◌↔◌, refl, sym, ap, ◌∙◌, inl, inr, Bool, true, false, ◌&&◌, ◌||◌, not, Option,
  none, some, List, [], ◌∷◌, ◌++◌, Bytes, codes, ◌==◌, All, arith, Bool-cases, if◌then◌else◌,
}
use atlas_idp.Text.{bytes_eq}
use atlas_idp.Text.Laws.{bytes_eq_iff}
use atlas_idp.Atlasctl.Kube.{Outcome, fine, fault}
use atlas_idp.Atlasctl.Disk.{FilePath, Entry, Stat, found, not_exist, Disk}
use atlas_idp.Atlasctl.Disk.Laws.{Tree, Node, file, folder}

abbrev pub names : List Bytes
names =
    codes "team"
    ∷ codes "demo"
    ∷ codes "demo.yaml"
    ∷ codes "app.yaml"
    ∷ codes "infra"
    ∷ codes "gateway.yaml"
    ∷ codes "resources"
    ∷ codes ".secret-seed"
    ∷ codes "config.yaml"
    ∷ codes "workloads"
    ∷ codes "gitops"
    ∷ codes "routes"
    ∷ []

unfoldable pub path_eq : FilePath → FilePath → Bool
unfolding bytes_eq
path_eq [] [] = true
path_eq [] (y ∷ q) = false
path_eq (x ∷ p) [] = false
path_eq (x ∷ p) (y ∷ q) = bytes_eq x y && path_eq p q

unfoldable pub is_under : FilePath → FilePath → Bool
unfolding path_eq
is_under p [] = path_eq p []
is_under p (y ∷ q) = path_eq p (y ∷ q) || is_under p q

unfoldable pub is_name : Bytes → List Bytes → Bool
unfolding bytes_eq
is_name n [] = false
is_name n (m ∷ ms) = bytes_eq m n || is_name n ms

abbrev pub is_folder : Option Node → Bool
is_folder (some folder) = true
is_folder _ = false

abbrev pub is_there : Option Node → Bool
is_there none = false
is_there (some _) = true

-- What stands at a path: only what is in directories counts.
unfoldable pub tree : Tree → Tree
unfolding is_name
tree w [] = some folder
tree w (n ∷ p) = if is_folder (tree w p) && is_name n names then w (n ∷ p) else none

-- One path gets another item, and nothing is left below it.
unfoldable pub put : FilePath → Option Node → Tree → Tree
unfolding is_under path_eq
put p item w q = if path_eq p q then item else if is_under p q then none else w q

-- Nothing is left at and below a path.
unfoldable pub cut : FilePath → Tree → Tree
unfolding is_under
cut p w q = if is_under p q then none else w q

abbrev entries_of : Tree → FilePath → List Bytes → List Entry
entries_of w p [] = []
entries_of w p (n ∷ ns) =
    let rest = entries_of w p ns in
    elim (tree w (n ∷ p)) [
      | none ↦ rest
      | some folder ↦ record { name = n; is_dir = true } ∷ rest
      | some (file _) ↦ record { name = n; is_dir = false } ∷ rest
    ]

-- os.MkdirAll
unfoldable pub make_all : FilePath → Tree → Option Bytes × Tree
make_all [] w = (none, w)
make_all (n ∷ p) w =
    let (e, w') = make_all p w in
    elim e [
      | some why ↦ (some why, w')
      | none ↦ elim (tree w' (n ∷ p)) [
        | some folder ↦ (none, w')
        | some (file _) ↦ (some (codes "not a directory"), w')
        | none ↦
            if is_folder (tree w' p) && is_name n names
            then (none, put (n ∷ p) (some folder) w')
            else (some (codes "not a directory"), w')
      ]
    ]

-- os.WriteFile
unfoldable pub write : FilePath → Bytes → Tree → Option Bytes × Tree
write [] content w = (some (codes "is a directory"), w)
write (n ∷ p) content w =
    if is_folder (tree w (n ∷ p)) || not (is_folder (tree w p) && is_name n names)
    then (some (codes "cannot be written"), w)
    else (none, put (n ∷ p) (some (file content)) w)

-- os.ReadFile
unfoldable pub read : FilePath → Tree → Outcome Bytes
read p w = elim (tree w p) [
  | some (file content) ↦ fine content
  | _ ↦ fault (codes "cannot be read")
]

-- os.ReadDir
unfoldable pub listing : FilePath → Tree → Outcome (List Entry)
listing p w =
    if is_folder (tree w p) then fine (entries_of w p names) else fault (codes "not a directory")

-- os.Remove, which here removes files only
unfoldable pub remove_file : FilePath → Tree → Option Bytes × Tree
remove_file p w = elim (tree w p) [
  | some (file _) ↦ (none, cut p w)
  | _ ↦ (some (codes "not a file"), w)
]

-- os.RemoveAll, but for the root
unfoldable pub remove_tree : FilePath → Tree → Option Bytes × Tree
remove_tree [] w = (some (codes "the root"), w)
remove_tree (n ∷ p) w = (none, cut (n ∷ p) w)

abbrev pub disk : Disk
disk = record {
  World = Tree;
  stat = λ p w. (if is_there (tree w p) then found else not_exist, w);
  mkdir_all = make_all;
  read_file = λ p w. (read p w, w);
  write_file = write;
  read_dir = λ p w. (listing p w, w);
  read_before = λ p w. [];
  remove = remove_file;
  remove_all = remove_tree;
}
