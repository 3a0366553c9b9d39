-- ===== src/Atlasctl/Disk.antt =====
-- The calls of package os on files that tools/atlasctl makes, as a parameter, and paths: an
-- absolute, clean path is the list of its components, innermost first.
pub mod Laws
pub mod Paths
use atlas_idp.Common.{◌≡◌, ◌⊎◌, inl, inr, refl, Bool, Option, List, [], ◌∷◌, ◌++◌, Bytes, Act}
use atlas_idp.Atlasctl.Kube.{Outcome}
use atlas_idp.Atlasctl.Config.{walk, spelled}

abbrev pub FilePath : Type 0
FilePath = List Bytes

-- filepath.Join of a directory and one more part, cleaned: ".." goes up.
unfoldable pub child : FilePath → Bytes → FilePath
unfolding walk
child dir part = walk dir [] part

-- The error of os.Stat: none, one for which os.IsNotExist holds, or another.
pub data Stat : Type 0 where
  found not_exist unknown : Stat

pub Stat-cases : (s : Stat) → (s ≡ found) ⊎ ((s ≡ not_exist) ⊎ (s ≡ unknown))
Stat-cases found = inl refl
Stat-cases not_exist = inr (inl refl)
Stat-cases unknown = inr (inr refl)

-- What os.ReadDir gives of each entry.
pub record Entry : Type 0 where
  pub name : Bytes
  pub is_dir : Bool

pub record Disk : Type 1 where
  pub World : Type 0
  pub stat : FilePath → Act World Stat
  pub mkdir_all : FilePath → Act World (Option Bytes)
  pub read_file : FilePath → Act World (Outcome Bytes)
  pub write_file : FilePath → Bytes → Act World (Option Bytes)
  pub read_dir : FilePath → Act World (Outcome (List Entry))
  -- the entries that os.ReadDir gives beside an error
  pub read_before : FilePath → World → List Entry
  pub remove : FilePath → Act World (Option Bytes)
  pub remove_all : FilePath → Act World (Option Bytes)
