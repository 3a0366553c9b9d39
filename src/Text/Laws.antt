-- ===== src/Text/Laws.antt =====
-- Laws of the text functions.
use atlas_idp.Common.{
  ℕ, ◌≡◌, ◌≢◌, ◌↔◌, refl, Bool, true, false, some, List, [], ◌∷◌, ◌++◌, Bytes, ◌==◌, arith, All,
  Bool-cases, inl, inr,
}
use atlas_idp.Text.{
  bytes_eq, strip, has_prefix, trim_prefix, trim_suffix, contains, trim_right, split, join,
  push_head,
}

pub bytes_eq_iff : (s t : Bytes) → (bytes_eq s t ≡ true) ↔ (s ≡ t)
unfolding bytes_eq
bytes_eq_iff [] [] = (λ _. refl, λ _. refl)
bytes_eq_iff [] (d ∷ t) = (λ h. cc, λ h. cc)
bytes_eq_iff (c ∷ s) [] = (λ h. cc, λ h. cc)
bytes_eq_iff (c ∷ s) (d ∷ t) =
    (λ h. ground (arith, (bytes_eq_iff s t).0), λ h. ground (arith, (bytes_eq_iff s t).1))

pub strip-append : (t s : Bytes) → strip (t ++ s) t ≡ some s
unfolding strip
strip-append [] s = refl
strip-append (d ∷ t) s = ground (arith, strip-append t s)

contains_of_prefix : (s t : Bytes) → has_prefix s t ≡ true → contains s t ≡ true
unfolding contains
contains_of_prefix [] t h = h
contains_of_prefix (c ∷ s) t h = rw h

pub contains-middle : (a t b : Bytes) → contains (a ++ (t ++ b)) t ≡ true
unfolding contains
contains-middle [] t b =
    contains_of_prefix (t ++ b) t (unfold has_prefix in rw (has_prefix, strip-append))
contains-middle (c ∷ a) t b = ground (arith, contains-middle a t b)

split-ne-nil : (sep : ℕ) (s : Bytes) → split sep s ≢ []
unfolding split
split-ne-nil sep [] = λ e. cc
split-ne-nil sep (c ∷ s) = ground (arith, split-ne-nil sep s)

join-push_head : (sep c : ℕ) (ps : List Bytes) → join sep (push_head c ps) ≡ c ∷ join sep ps
unfolding join
join-push_head sep c [] = refl
join-push_head sep c (p ∷ []) = refl
join-push_head sep c (p ∷ q ∷ ps) = refl

join-nil_cons : (sep : ℕ) (ps : List Bytes) → ps ≢ [] → join sep ([] ∷ ps) ≡ sep ∷ join sep ps
unfolding join
join-nil_cons sep [] h = absurd (h refl)
join-nil_cons sep (p ∷ ps) h = refl

-- Joining the parts gives the text back.
pub join-split : (sep : ℕ) (s : Bytes) → join sep (split sep s) ≡ s
unfolding split
join-split sep [] = unfold join in refl
join-split sep (c ∷ s) = elim (Bool-cases (c == sep)) [
  | inl e ↦
      rw (e, join-nil_cons sep (split sep s) (split-ne-nil sep s), join-split sep s) (ground arith)
  | inr ne ↦ rw (ne, join-push_head, join-split sep s)
]

push_head-append :
    (c : ℕ) (ps qs : List Bytes) → ps ≢ [] → push_head c (ps ++ qs) ≡ push_head c ps ++ qs
push_head-append c [] qs h = absurd (h refl)
push_head-append c (p ∷ ps) qs h = refl

pub split-append : (sep : ℕ) (a b : Bytes) → split sep (a ++ sep ∷ b) ≡ split sep a ++ split sep b
unfolding split
split-append sep [] b = ground arith
split-append sep (c ∷ a) b = elim (Bool-cases (c == sep)) [
  | inl e ↦ rw (e, split-append sep a b)
  | inr ne ↦
      rw (ne, split-append sep a b)
        (push_head-append c (split sep a) (split sep b) (split-ne-nil sep a))
]

-- A text without the separator is its only part.
pub split_of_lacks : (sep : ℕ) (s : Bytes) → All (λ c. c ≢ sep) s → split sep s ≡ s ∷ []
unfolding split
split_of_lacks sep [] _ = refl
split_of_lacks sep (c ∷ s) (ne, h) = rw (split_of_lacks sep s h) (ground arith)

-- Splitting a join gives the parts back, if there is a part and none holds the separator.
pub split-join :
    (sep : ℕ) (ps : List Bytes)
    → ps ≢ []
    → All (All (λ c. c ≢ sep)) ps
    → split sep (join sep ps) ≡ ps
unfolding join
split-join sep [] h _ = absurd (h refl)
split-join sep (p ∷ []) h (lacks, _) = split_of_lacks sep p lacks
split-join sep (p ∷ q ∷ ps) h (lacks, all) = rw (
  split-append sep p (join sep (q ∷ ps)),
  split_of_lacks sep p lacks,
  split-join sep (q ∷ ps) (λ e. cc) all,
)

-- Trimming stops at the last byte that does not pass, whatever passes behind it.
pub trim_right-snoc :
    (p : ℕ → Bool) (s : Bytes) (z : ℕ) (t : Bytes)
    → p z ≡ false
    → trim_right p t ≡ []
    → trim_right p (s ++ z ∷ t) ≡ s ++ z ∷ []
unfolding trim_right
trim_right-snoc p [] z t stays goes = rw (goes, stays)
trim_right-snoc p (c ∷ []) z t stays goes = rw (goes, stays)
trim_right-snoc p (c ∷ d ∷ s) z t stays goes = rw (trim_right-snoc p (d ∷ s) z t stays goes)

-- A suffix of one byte is not trimmed from a text with another last byte.
pub trim_suffix-snoc :
    (s : Bytes) (z x : ℕ) → z ≢ x → trim_suffix (s ++ z ∷ []) (x ∷ []) ≡ s ++ z ∷ []
unfolding trim_suffix bytes_eq
trim_suffix-snoc [] z x ne = ground arith
trim_suffix-snoc (c ∷ []) z x ne = ground arith
trim_suffix-snoc (c ∷ d ∷ s) z x ne = ground (arith, trim_suffix-snoc (d ∷ s) z x ne)

pub trim_prefix_of_not : (s t : Bytes) → has_prefix s t ≡ false → trim_prefix s t ≡ s
unfolding trim_prefix has_prefix
trim_prefix_of_not s t h = ground arith
