-- ===== src/Atlasctl/Disk/Paths.antt =====
-- Paths below others, and how filepath.Join of tools/atlasctl reaches them.
use atlas_idp.Common.{
  suc, ◌+◌, ◌≡◌, ◌≢◌, ◌⊎◌, sym, ap, ◌∙◌, [], ◌∷◌, ◌++◌, append_assoc, append-nil, Bytes, All,
  length, arith, inl, inr,
}
use atlas_idp.Atlasctl.Config.{walk, enter}
use atlas_idp.Atlasctl.Disk.{FilePath, child}

-- A name of an entry of a directory: not empty, no "." or "..", and without a slash.
pub record IsPlain (name : Bytes) : Type 0 where
  pub entered : (dir : FilePath) → enter dir name ≡ name ∷ dir
  pub without_slash : All (λ c. c ≢ b'/') name

walk-no_slash :
    (dir : FilePath) (part path : Bytes)
    → All (λ c. c ≢ b'/') path
    → walk dir part path ≡ enter dir (part ++ path)
unfolding walk
walk-no_slash dir part [] _ = rw (append-nil part)
walk-no_slash dir part (c ∷ path) (ne, plain) =
    let more = walk-no_slash dir (part ++ c ∷ []) path plain in
    let same = append_assoc part (c ∷ []) path in ground (arith, more, same)

-- Joining a plain name goes one level down.
pub child-plain : (dir : FilePath) (name : Bytes) → IsPlain name → child dir name ≡ name ∷ dir
unfolding child
child-plain dir name plain = walk-no_slash dir [] name plain.without_slash ∙ plain.entered dir

-- `q` is `p` or below it.
abbrev pub IsUnder : FilePath → FilePath → Type 0
IsUnder p q = (rel : FilePath) × (q ≡ rel ++ p)

-- Neither of the two is in the other.
abbrev pub Apart : FilePath → FilePath → Type 0
Apart p q = (¬ IsUnder p q) × (¬ IsUnder q p)

pub IsUnder-cons : (p q : FilePath) (name : Bytes) → IsUnder (name ∷ p) q → IsUnder p q
IsUnder-cons p q name (rel, same) = (rel ++ name ∷ [], same ∙ sym (append_assoc rel (name ∷ []) p))

-- what is above a child of `p` but not at or below `p` is above `p`
pub cons-IsUnder :
    (p q : FilePath) (name : Bytes) → IsUnder q (name ∷ p) → ¬ IsUnder p q → IsUnder q p
cons-IsUnder p q name ([], same) out = absurd (out (name ∷ [], sym same))
cons-IsUnder p q name (x ∷ rel, same) out = (rel, cc)

abbrev outer : FilePath → FilePath
outer [] = []
outer (x ∷ p) = p

pub Apart-cons : (p q : FilePath) (name : Bytes) → Apart p q → Apart (name ∷ p) (name ∷ q)
Apart-cons p q name (out, out') = (
  λ (rel, same). Apart-step p q name rel out same,
  λ (rel, same). Apart-step q p name rel out' same,
)
  where
    Apart-step :
        (p q : FilePath) (name : Bytes) (rel : FilePath)
        → ¬ IsUnder p q
        → name ∷ q ≢ rel ++ name ∷ p
    Apart-step p q name [] out same = out ([], cc)
    Apart-step p q name (x ∷ rel) out same =
        out (rel ++ name ∷ [], ap outer same ∙ sym (append_assoc rel (name ∷ []) p))

pub length-append : (p q : FilePath) → length (p ++ q) ≡ length p + length q
length-append [] q = ground arith
length-append (x ∷ p) q = ground (arith, length-append p q)

-- paths below two entries of one directory
pub same_entry :
    (rel rel' p : FilePath) (name name' : Bytes)
    → rel ++ name ∷ p ≡ rel' ++ name' ∷ p
    → name ≡ name'
same_entry [] [] p name name' h = cc
same_entry [] (x ∷ rel') p name name' h =
    let long = ap length h ∙ ap suc (length-append rel' (name' ∷ p)) in ground (arith, long)
same_entry (x ∷ rel) [] p name name' h =
    let long = ap length h in let more = length-append rel (name ∷ p) in ground (arith, long, more)
same_entry (x ∷ rel) (y ∷ rel') p name name' h = same_entry rel rel' p name name' cc

-- two paths that have one path below both
pub IsUnder-join :
    (p q : FilePath) (rel rel' : FilePath) → rel ++ p ≡ rel' ++ q → IsUnder p q ⊎ IsUnder q p
IsUnder-join p q [] rel' h = inr (rel', h)
IsUnder-join p q (x ∷ rel) [] h = inl (x ∷ rel, sym h)
IsUnder-join p q (x ∷ rel) (y ∷ rel') h = IsUnder-join p q rel rel' cc

-- what is apart from a directory is apart from what is in it
pub Apart-under : (p q r : FilePath) → Apart p q → IsUnder q r → Apart p r
Apart-under p q r (out, out') (rel, same) = (
  λ (rel', same'). elim (IsUnder-join p q rel' rel (sym same' ∙ same)) [
    | inl under ↦ out under
    | inr under ↦ out' under
  ],
  λ (rel', same').
      out' (
        rel' ++ rel,
        same' ∙ ap (λ (x : FilePath). rel' ++ x) same ∙ sym (append_assoc rel' rel q),
      ),
)
