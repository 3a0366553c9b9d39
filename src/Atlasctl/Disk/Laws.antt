-- ===== src/Atlasctl/Disk/Laws.antt =====
-- The documented behaviour of package os that the proofs on tools/atlasctl rely on, as hypotheses.
-- A call that ends with an error may have been carried out in part.
use atlas_idp.Common.{◌≡◌, ◌≢◌, ◌⊎◌, Option, none, some, List, [], ◌∷◌, true, false, Bytes, All}
use atlas_idp.Atlasctl.Kube.{fine}
use atlas_idp.Atlasctl.Disk.{FilePath, Entry, found, not_exist, Disk}
use atlas_idp.Atlasctl.Disk.Paths.{IsUnder, IsPlain}

-- What stands at a path: a file with its content, or a directory. There are no links.
pub data Node : Type 0 where
  file : Bytes → Node
  folder : Node

abbrev pub Tree : Type 0
Tree = FilePath → Option Node

-- The kind of an entry is that of what stands at its path.
abbrev pub IsListed : Tree → FilePath → Entry → Type 0
IsListed tree dir e =
    ((e.is_dir ≡ true) × (tree (e.name ∷ dir) ≡ some folder))
    ⊎ ((e.is_dir ≡ false) × (content : Bytes) × (tree (e.name ∷ dir) ≡ some (file content)))

-- The list has an entry of that name.
abbrev pub Names : Bytes → List Entry → Type 0
Names name [] = ⊥
Names name (e ∷ entries) = (e.name ≡ name) ⊎ Names name entries

pub record DiskLaws (d : Disk) : Type 0 where
  -- what is on the disk, which the program cannot read but through the calls
  pub tree : d.World → Tree
  -- what has something in it is a directory
  pub in_folder :
      (name : Bytes) (p : FilePath) (w : d.World)
      → tree w (name ∷ p) ≢ none
      → tree w p ≡ some folder
  pub stat_keeps : (p : FilePath) (w : d.World) → tree (d.stat p w).1 ≡ tree w
  -- os.IsNotExist holds for the error of os.Stat only where nothing is there
  pub stat_there : (p : FilePath) (w : d.World) → tree w p ≢ none → (d.stat p w).0 ≢ not_exist
  pub mkdir_all_frame :
      (p q : FilePath) (w : d.World) → ¬ IsUnder q p → tree (d.mkdir_all p w).1 q ≡ tree w q
  pub mkdir_all_keeps :
      (p q : FilePath) (w : d.World) → tree w q ≢ none → tree (d.mkdir_all p w).1 q ≡ tree w q
  pub read_file_keeps : (p : FilePath) (w : d.World) → tree (d.read_file p w).1 ≡ tree w
  pub read_file_gives :
      (p : FilePath) (w : d.World) (content : Bytes)
      → (d.read_file p w).0 ≡ fine content
      → tree w p ≡ some (file content)
  pub write_file_frame :
      (p q : FilePath) (content : Bytes) (w : d.World)
      → q ≢ p
      → tree (d.write_file p content w).1 q ≡ tree w q
  pub write_file_done :
      (p : FilePath) (content : Bytes) (w : d.World)
      → (d.write_file p content w).0 ≡ none
      → tree (d.write_file p content w).1 p ≡ some (file content)
  pub read_dir_keeps : (p : FilePath) (w : d.World) → tree (d.read_dir p w).1 ≡ tree w
  pub read_dir_folder :
      (p : FilePath) (w : d.World) (entries : List Entry)
      → (d.read_dir p w).0 ≡ fine entries
      → tree w p ≡ some folder
  pub read_dir_gives :
      (p : FilePath) (w : d.World) (entries : List Entry)
      → (d.read_dir p w).0 ≡ fine entries
      → All (λ e. IsPlain e.name × IsListed (tree w) p e) entries
  pub read_dir_all :
      (p : FilePath) (w : d.World) (entries : List Entry) (name : Bytes)
      → (d.read_dir p w).0 ≡ fine entries
      → tree w (name ∷ p) ≢ none
      → Names name entries
  pub remove_frame : (p q : FilePath) (w : d.World) → q ≢ p → tree (d.remove p w).1 q ≡ tree w q
  pub remove_done :
      (p : FilePath) (w : d.World) → (d.remove p w).0 ≡ none → tree (d.remove p w).1 p ≡ none
  -- removing what does not exist makes nothing
  pub remove_gone :
      (p q : FilePath) (w : d.World) → tree w q ≡ none → tree (d.remove p w).1 q ≡ none
  pub remove_all_frame :
      (p q : FilePath) (w : d.World) → ¬ IsUnder p q → tree (d.remove_all p w).1 q ≡ tree w q
  pub remove_all_done :
      (p q : FilePath) (w : d.World)
      → (d.remove_all p w).0 ≡ none
      → IsUnder p q
      → tree (d.remove_all p w).1 q ≡ none
  pub remove_all_gone :
      (p q : FilePath) (w : d.World) → tree w q ≡ none → tree (d.remove_all p w).1 q ≡ none

-- os.Stat of the path succeeds whenever something is there: it never fails for want of a permission
-- or with an error of the device.
abbrev pub IsSeen : (d : Disk) → DiskLaws d → FilePath → Type 0
IsSeen d l p = (w : d.World) → l.tree w p ≢ none → (d.stat p w).0 ≡ found
