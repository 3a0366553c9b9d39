-- ===== src/Text.antt =====
-- The functions of Go's packages strings and bufio that the programs use, on bytes. White space and
-- letters are those of ASCII.
pub mod Laws
pub mod Lines
use atlas_idp.Common.{
  ℕ, zero, suc, ◌+◌, ◌-◌, Bool, true, false, ◌&&◌, ◌||◌, Option, none, some, List, [], ◌∷◌, ◌++◌,
  map, length, Bytes, ◌==◌, leb, if◌then◌else◌,
}

unfoldable pub bytes_eq : Bytes → Bytes → Bool
bytes_eq [] [] = true
bytes_eq [] (_ ∷ _) = false
bytes_eq (_ ∷ _) [] = false
bytes_eq (c ∷ s) (d ∷ t) = c == d && bytes_eq s t

-- HasPrefix, TrimPrefix: the rest behind a prefix
unfoldable pub strip : Bytes → Bytes → Option Bytes
strip s [] = some s
strip [] (_ ∷ _) = none
strip (c ∷ s) (d ∷ t) = if c == d then strip s t else none

unfoldable pub has_prefix : Bytes → Bytes → Bool
unfolding strip
has_prefix s t = elim (strip s t) [ none ↦ false | some _ ↦ true ]

unfoldable pub trim_prefix : Bytes → Bytes → Bytes
unfolding strip
trim_prefix s t = elim (strip s t) [ none ↦ s | some rest ↦ rest ]

-- HasSuffix, TrimSuffix
unfoldable pub has_suffix : Bytes → Bytes → Bool
unfolding bytes_eq
has_suffix [] t = bytes_eq [] t
has_suffix (c ∷ s) t = bytes_eq (c ∷ s) t || has_suffix s t

unfoldable pub trim_suffix : Bytes → Bytes → Bytes
unfolding bytes_eq
trim_suffix [] t = []
trim_suffix (c ∷ s) t = if bytes_eq (c ∷ s) t then [] else c ∷ trim_suffix s t

unfoldable pub contains : Bytes → Bytes → Bool
unfolding has_prefix
contains [] t = has_prefix [] t
contains (c ∷ s) t = has_prefix (c ∷ s) t || contains s t

abbrev pub is_space : ℕ → Bool
is_space c = (leb 9 c && leb c 13) || c == 32

-- TrimLeft and TrimRight of the bytes that pass a test
unfoldable pub trim_left : (ℕ → Bool) → Bytes → Bytes
trim_left p [] = []
trim_left p (c ∷ s) = if p c then trim_left p s else c ∷ s

abbrev cons_trimmed : (ℕ → Bool) → ℕ → Bytes → Bytes
cons_trimmed p c [] = if p c then [] else c ∷ []
cons_trimmed p c (d ∷ s) = c ∷ d ∷ s

unfoldable pub trim_right : (ℕ → Bool) → Bytes → Bytes
trim_right p [] = []
trim_right p (c ∷ s) = cons_trimmed p c (trim_right p s)

unfoldable pub trim_space : Bytes → Bytes
unfolding trim_left trim_right
trim_space s = trim_right is_space (trim_left is_space s)

abbrev pub push_head : ℕ → List Bytes → List Bytes
push_head c [] = (c ∷ []) ∷ []
push_head c (p ∷ ps) = (c ∷ p) ∷ ps

-- Split at every separator, and Join
unfoldable pub split : ℕ → Bytes → List Bytes
split sep [] = [] ∷ []
split sep (c ∷ s) = if c == sep then [] ∷ split sep s else push_head c (split sep s)

unfoldable pub join : ℕ → List Bytes → Bytes
join sep [] = []
join sep (p ∷ []) = p
join sep (p ∷ q ∷ ps) = p ++ sep ∷ join sep (q ∷ ps)

-- SplitN with 2: the parts before and behind the first separator; none if there is none
unfoldable pub split_2 : ℕ → Bytes → Option (Bytes × Bytes)
split_2 sep [] = none
split_2 sep (c ∷ s) =
    if c == sep
    then some ([], s)
    else elim (split_2 sep s) [ none ↦ none | some (before, behind) ↦ some (c ∷ before, behind) ]

-- ReplaceAll of one byte by another, ToUpper and ToLower of ASCII text
unfoldable pub replace : ℕ → ℕ → Bytes → Bytes
replace c d s = map (λ b. if b == c then d else b) s

unfoldable pub to_upper : Bytes → Bytes
to_upper s = map (λ b. if leb 97 b && leb b 122 then b - 32 else b) s

unfoldable pub to_lower : Bytes → Bytes
to_lower s = map (λ b. if leb 65 b && leb b 90 then b + 32 else b) s

-- ReplaceAll of a text that is not empty, with how many bytes of a match are still to be passed over
replace_from : Bytes → Bytes → ℕ → Bytes → Bytes
unfolding has_prefix
replace_from old new skip [] = []
replace_from old new (suc skip) (c ∷ s) = replace_from old new skip s
replace_from old new zero (c ∷ s) =
    let behind = replace_from old new (length old - 1) s in
    let later = replace_from old new zero s in
    if has_prefix (c ∷ s) old then new ++ behind else c ∷ later

unfoldable pub replace_all : Bytes → Bytes → Bytes → Bytes
unfolding replace_from
replace_all old new s = replace_from old new zero s

-- Fields: the parts between runs of white space, with the part before it that is open
fields_from : Bytes → Bytes → List Bytes
fields_from [] [] = []
fields_from (c ∷ part) [] = (c ∷ part) ∷ []
fields_from [] (d ∷ s) =
    let skipped = fields_from [] s in
    let opened = fields_from (d ∷ []) s in if is_space d then skipped else opened
fields_from (c ∷ part) (d ∷ s) =
    let closed = fields_from [] s in
    let longer = fields_from (c ∷ (part ++ d ∷ [])) s in
    if is_space d then (c ∷ part) ∷ closed else longer

unfoldable pub fields : Bytes → List Bytes
unfolding fields_from
fields s = fields_from [] s

-- the lines that bufio.Scanner gives, shorter than its limit of 64 KB
abbrev pub without_last_empty : List Bytes → List Bytes
without_last_empty [] = []
without_last_empty ([] ∷ []) = []
without_last_empty (line ∷ lines) = line ∷ without_last_empty lines

unfoldable pub scan_lines : Bytes → List Bytes
unfolding split trim_suffix
scan_lines s = map (λ line. trim_suffix line (13 ∷ [])) (without_last_empty (split 10 s))

-- lines, each ended by a newline
pub ended : List Bytes → Bytes
ended [] = []
ended (line ∷ lines) = line ++ 10 ∷ ended lines
