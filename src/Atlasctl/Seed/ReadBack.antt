-- ===== src/Atlasctl/Seed/ReadBack.antt =====
-- `LoadParams` of tools/atlasctl/pkg/seed/seed.go on the file that `SecretSeedEnv` of
-- tools/atlasctl/pkg/template/seed.go writes.
use atlas_idp.Common.{
  ◌≡◌, ◌≢◌, refl, ap, ◌∙◌, some, List, [], ◌∷◌, ◌++◌, map, Bytes, codes, arith, All, All-append,
  append_assoc,
}
use atlas_idp.Text.{
  bytes_eq, strip, has_prefix, trim_prefix, trim_suffix, trim_left, trim_right, trim_space,
  is_space, split_2, scan_lines, replace, to_upper,
}
use atlas_idp.Text.Laws.{strip-append}
use atlas_idp.Text.Lines.{trim_right-append, trim_suffix-append, split_2-append, scan_lines-ended}
use atlas_idp.Atlasctl.Kube.{insert}
use atlas_idp.Atlasctl.Template.{header_lines, secret_line, secret_seed_env}
use atlas_idp.Atlasctl.Seed.{
  Workload, Params, env_prefix, is_comment, set_secret, assign, load_line, load_lines,
}

-- A group or an application as it stands in the names of variables.
abbrev upper_name : Bytes → Bytes
upper_name s = to_upper (replace 45 95 s)

-- A text that holds neither a newline nor an equals sign.
abbrev IsWord : Bytes → Type 0
IsWord s = All (λ c. c ≢ 10) s × All (λ c. c ≢ 61) s

-- A value on one line that does not end in white space.
pub record IsValue (v : Bytes) : Type 0 where
  pub one_line : All (λ c. c ≢ 10) v
  pub no_space : trim_right is_space (61 ∷ v) ≡ 61 ∷ v
  pub no_return : trim_suffix (61 ∷ v) (13 ∷ []) ≡ 61 ∷ v

abbrev AreSecrets : List (Bytes × Bytes) → Type 0
AreSecrets = All (λ s. IsWord s.0 × IsValue s.1)

-- The parameters after each secret was taken in its turn, under its own name.
abbrev pub taken : Bytes → List (Bytes × Bytes) → Params → Params
taken prefix [] p = p
taken prefix ((k, v) ∷ more) p =
    taken prefix more
      (set_secret k v (record p { raw_env = insert (prefix ++ (codes "_" ++ k)) v p.raw_env }))

assign-own :
    (prefix k v : Bytes) (p : Params)
    → assign prefix (prefix ++ (codes "_" ++ k)) v p
      ≡ set_secret k v (record p { raw_env = insert (prefix ++ (codes "_" ++ k)) v p.raw_env })
unfolding assign has_prefix trim_prefix
assign-own prefix k v p =
    let begins : strip (prefix ++ (codes "_" ++ k)) prefix ≡ some (codes "_" ++ k) =
      strip-append prefix (codes "_" ++ k) in
    let rest : strip (prefix ++ (codes "_" ++ k)) (prefix ++ codes "_") ≡ some k =
      rw (← append_assoc prefix (codes "_") k) (strip-append (prefix ++ codes "_") k) in
    rw (assign, has_prefix, begins, trim_prefix, rest) refl

abbrev prefix_of : Bytes → Bytes → Bytes
prefix_of g a = codes "VL_" ++ (g ++ (codes "_" ++ a))

-- a line of a secret, as name and value
line_shape :
    (g a k v : Bytes) → secret_line g a (k, v) ≡ (prefix_of g a ++ (codes "_" ++ k)) ++ (61 ∷ v)
unfolding secret_line
line_shape g a k v = simp append_assoc

IsWord-append : (s t : Bytes) → IsWord s → IsWord t → IsWord (s ++ t)
IsWord-append s t (a, b) (c, d) = (All-append _ s t a c, All-append _ s t b d)

name-IsWord :
    (g a k : Bytes) → IsWord g → IsWord a → IsWord k → IsWord (prefix_of g a ++ (codes "_" ++ k))
name-IsWord g a k wg wa wk =
    let vl : IsWord (codes "VL_") = (omega arith, omega arith) in
    let bar : IsWord (codes "_") = (omega arith, omega arith) in
    IsWord-append (prefix_of g a) (codes "_" ++ k)
      (IsWord-append (codes "VL_") (g ++ (codes "_" ++ a)) vl
        (IsWord-append g (codes "_" ++ a) wg (IsWord-append (codes "_") a bar wa)))
      (IsWord-append (codes "_") k bar wk)

load_line-secret :
    (g a k v : Bytes) (p : Params)
    → IsWord g
    → IsWord a
    → IsWord k
    → IsValue v
    → load_line (prefix_of g a) (secret_line g a (k, v)) p
      ≡ set_secret k v
          (record p { raw_env = insert (prefix_of g a ++ (codes "_" ++ k)) v p.raw_env })
unfolding load_line is_comment bytes_eq has_prefix strip
load_line-secret g a k v p wg wa wk value =
    let name = prefix_of g a ++ (codes "_" ++ k) in
    let trimmed : trim_space (name ++ 61 ∷ v) ≡ name ++ 61 ∷ v =
      unfold trim_space trim_left in trim_right-append is_space name 61 v value.no_space in
    let parts : split_2 61 (name ++ 61 ∷ v) ≡ some (name, v) =
      split_2-append 61 name v (name-IsWord g a k wg wa wk).1 in
    rw (line_shape g a k v, load_line, trimmed, parts) (assign-own (prefix_of g a) k v p)

load_lines-secrets :
    (g a : Bytes) (secrets : List (Bytes × Bytes)) (p : Params)
    → IsWord g
    → IsWord a
    → AreSecrets secrets
    → load_lines (prefix_of g a) (map (secret_line g a) secrets) p ≡ taken (prefix_of g a) secrets p
unfolding load_lines
load_lines-secrets g a [] p wg wa _ = refl
load_lines-secrets g a ((k, v) ∷ more) p wg wa ((wk, value), h) =
    ap (load_lines (prefix_of g a) (map (secret_line g a) more))
      (load_line-secret g a k v p wg wa wk value)
    ∙ load_lines-secrets g a more _ wg wa h

abbrev title_end : Bytes
title_end = codes " - atlasctl seed environment file"

abbrev title : Bytes → Bytes → Bytes
title g a = (codes "# " ++ (g ++ (codes "/" ++ a))) ++ title_end

abbrev notes : List Bytes
notes =
    codes "# Auto-generated by atlasctl new. Edit values before running atlasctl seed."
    ∷ codes "#"
    ∷ codes "# Format: KEY=value"
    ∷ []

header_shape : (g a : Bytes) → header_lines g a ≡ title g a ∷ notes
unfolding header_lines
header_shape g a = ap (λ (l : Bytes). l ∷ notes) (simp append_assoc)

load_line-title : (g a prefix : Bytes) (p : Params) → load_line prefix (title g a) p ≡ p
unfolding load_line is_comment bytes_eq has_prefix strip
load_line-title g a prefix p =
    let trimmed : trim_space (title g a) ≡ title g a =
      unfold trim_space trim_left trim_right in
      trim_right-append is_space (codes "# " ++ (g ++ (codes "/" ++ a))) 32
        (codes "- atlasctl seed environment file") refl in
    rw (load_line, trimmed) refl

load_lines-header :
    (g a prefix : Bytes) (lines : List Bytes) (p : Params)
    → load_lines prefix (header_lines g a ++ lines) p ≡ load_lines prefix lines p
unfolding load_lines
load_lines-header g a prefix lines p = rw (header_shape g a) (
    ap (load_lines prefix (notes ++ lines)) (load_line-title g a prefix p)
    ∙ (unfold load_line is_comment bytes_eq has_prefix strip trim_space trim_left trim_right in
        refl))

-- the lines hold no newline and end in no carriage return
abbrev IsPlain : Bytes → Type 0
IsPlain line = All (λ c. c ≢ 10) line × (trim_suffix line (13 ∷ []) ≡ line)

title-IsPlain : (g a : Bytes) → IsWord g → IsWord a → IsPlain (title g a)
unfolding trim_suffix bytes_eq
title-IsPlain g a wg wa = (
  All-append _ (codes "# " ++ (g ++ (codes "/" ++ a))) title_end
      (All-append _ (codes "# ") (g ++ (codes "/" ++ a)) (omega arith)
        (All-append _ g (codes "/" ++ a) wg.0 (All-append _ (codes "/") a (omega arith) wa.0)))
      (omega arith),
  trim_suffix-append 13 (codes "# " ++ (g ++ (codes "/" ++ a))) 32
      (codes "- atlasctl seed environment file") refl,
)

secret_line-IsPlain :
    (g a k v : Bytes)
    → IsWord g
    → IsWord a
    → IsWord k
    → IsValue v
    → IsPlain (secret_line g a (k, v))
secret_line-IsPlain g a k v wg wa wk value =
    let name = prefix_of g a ++ (codes "_" ++ k) in
    rw (line_shape g a k v) (
      All-append _ name (61 ∷ v) (name-IsWord g a k wg wa wk).0 (omega arith, value.one_line),
      trim_suffix-append 13 name 61 v value.no_return,
    )

secret_lines-IsPlain :
    (g a : Bytes) (secrets : List (Bytes × Bytes))
    → IsWord g
    → IsWord a
    → AreSecrets secrets
    → All IsPlain (map (secret_line g a) secrets)
secret_lines-IsPlain g a [] wg wa _ = tt
secret_lines-IsPlain g a ((k, v) ∷ more) wg wa ((wk, value), h) =
    (secret_line-IsPlain g a k v wg wa wk value, secret_lines-IsPlain g a more wg wa h)

notes-IsPlain : All IsPlain notes
unfolding trim_suffix bytes_eq
notes-IsPlain = ((omega arith, refl), ((omega arith, refl), ((omega arith, refl), tt)))

All-unzip :
    (lines : List Bytes)
    → All IsPlain lines
    → All (All (λ c. c ≢ 10)) lines × All (λ line. trim_suffix line (13 ∷ []) ≡ line) lines
All-unzip [] _ = (tt, tt)
All-unzip (line ∷ lines) ((lacks, plain), h) =
    let (ls, ps) = All-unzip lines h in ((lacks, ls), (plain, ps))

scan_lines-env :
    (g a : Bytes) (secrets : List (Bytes × Bytes))
    → IsWord g
    → IsWord a
    → AreSecrets secrets
    → scan_lines (secret_seed_env g a secrets) ≡ header_lines g a ++ map (secret_line g a) secrets
unfolding secret_seed_env
scan_lines-env g a secrets wg wa h =
    let lines = title g a ∷ (notes ++ map (secret_line g a) secrets) in
    let plain : All IsPlain lines = (
      title-IsPlain g a wg wa,
      All-append IsPlain notes (map (secret_line g a) secrets) notes-IsPlain
          (secret_lines-IsPlain g a secrets wg wa h),
    ) in
    let (lacks, untrimmed) = All-unzip lines plain in
    rw (header_shape g a) (scan_lines-ended lines lacks untrimmed)

-- `LoadParams` reads back the file that `SecretSeedEnv` writes for the workload: reading its lines
-- takes every secret in its turn under its own name, with its variable under its full name, and
-- nothing else, where the upper-case names of group and application and the keys hold no newline
-- and no equals sign, and each value is on one line and does not end in white space.
pub load_lines-secret_seed_env :
    (wl : Workload) (secrets : List (Bytes × Bytes)) (p : Params)
    → IsWord (upper_name wl.group)
    → IsWord (upper_name wl.app)
    → AreSecrets secrets
    → load_lines
        (env_prefix wl)
        (scan_lines (secret_seed_env (upper_name wl.group) (upper_name wl.app) secrets))
        p
      ≡ taken (env_prefix wl) secrets p
unfolding env_prefix
load_lines-secret_seed_env wl secrets p wg wa h =
    let g = upper_name wl.group in
    let a = upper_name wl.app in
    rw (scan_lines-env g a secrets wg wa h) (
      load_lines-header g a (prefix_of g a) (map (secret_line g a) secrets) p
      ∙ load_lines-secrets g a secrets p wg wa h)
