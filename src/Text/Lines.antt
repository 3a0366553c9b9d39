-- ===== src/Text/Lines.antt =====
-- Laws of the text functions that reading a file line by line needs.
use atlas_idp.Common.{
  ℕ, ◌≡◌, ◌≢◌, refl, ap, Bool, some, List, [], ◌∷◌, ◌++◌, map, Bytes, arith, All,
}
use atlas_idp.Text.{
  bytes_eq, split, split_2, trim_right, trim_suffix, scan_lines, without_last_empty, ended,
}
use atlas_idp.Text.Laws.{split-append, split_of_lacks}

-- What may not be trimmed from a text may not be trimmed from one that ends in it.
pub trim_right-append :
    (p : ℕ → Bool) (s : Bytes) (x : ℕ) (t : Bytes)
    → trim_right p (x ∷ t) ≡ x ∷ t
    → trim_right p (s ++ x ∷ t) ≡ s ++ x ∷ t
unfolding trim_right
trim_right-append p [] x t h = h
trim_right-append p (c ∷ []) x t h = rw h
trim_right-append p (c ∷ d ∷ s) x t h = rw (trim_right-append p (d ∷ s) x t h)

pub trim_suffix-append :
    (y : ℕ) (s : Bytes) (x : ℕ) (t : Bytes)
    → trim_suffix (x ∷ t) (y ∷ []) ≡ x ∷ t
    → trim_suffix (s ++ x ∷ t) (y ∷ []) ≡ s ++ x ∷ t
unfolding trim_suffix bytes_eq
trim_suffix-append y [] x t h = h
trim_suffix-append y (c ∷ []) x t h = ground (arith, h)
trim_suffix-append y (c ∷ d ∷ s) x t h = ground (arith, trim_suffix-append y (d ∷ s) x t h)

pub split_2-append :
    (sep : ℕ) (a b : Bytes) → All (λ c. c ≢ sep) a → split_2 sep (a ++ sep ∷ b) ≡ some (a, b)
unfolding split_2
split_2-append sep [] b _ = ground arith
split_2-append sep (c ∷ a) b (ne, h) = rw (split_2, split_2-append sep a b h) (ground arith)

split-ended :
    (lines : List Bytes) → All (All (λ c. c ≢ 10)) lines → split 10 (ended lines) ≡ lines ++ [] ∷ []
unfolding ended
split-ended [] _ = unfold split in refl
split-ended (line ∷ lines) (lacks, h) =
    rw (split-append 10 line (ended lines), split_of_lacks 10 line lacks, split-ended lines h) refl

without_last_empty-snoc : (lines : List Bytes) → without_last_empty (lines ++ [] ∷ []) ≡ lines
without_last_empty-snoc [] = refl
without_last_empty-snoc ([] ∷ []) = refl
without_last_empty-snoc ([] ∷ line ∷ lines) =
    ap (λ (ls : List Bytes). [] ∷ ls) (without_last_empty-snoc (line ∷ lines))
without_last_empty-snoc ((c ∷ s) ∷ lines) =
    ap (λ (ls : List Bytes). (c ∷ s) ∷ ls) (without_last_empty-snoc lines)

map-same :
    (f : Bytes → Bytes) (lines : List Bytes)
    → All (λ line. f line ≡ line) lines
    → map f lines ≡ lines
map-same f [] _ = refl
map-same f (line ∷ lines) (e, h) = rw (e, map-same f lines h) refl

-- A file of lines that were ended one by one is scanned into these lines, if none holds a newline
-- or ends in a carriage return.
pub scan_lines-ended :
    (lines : List Bytes)
    → All (All (λ c. c ≢ 10)) lines
    → All (λ line. trim_suffix line (13 ∷ []) ≡ line) lines
    → scan_lines (ended lines) ≡ lines
unfolding scan_lines
scan_lines-ended lines lacks plain =
    rw (split-ended lines lacks, without_last_empty-snoc lines)
      (map-same (λ line. trim_suffix line (13 ∷ [])) lines plain)
