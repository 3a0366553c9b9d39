-- ===== src/Atlasctl/Seed/Names.antt =====
-- Which names of .secret-seed `LoadParams` of tools/atlasctl/pkg/seed/seed.go takes.
use atlas_idp.Common.{◌≡◌, refl, true, none, some, [], ◌∷◌, ◌++◌, Bytes, codes, arith}
use atlas_idp.Text.{bytes_eq, strip, has_prefix, trim_prefix}
use atlas_idp.Text.Laws.{bytes_eq_iff, strip-append}
use atlas_idp.Atlasctl.Kube.{Entries, find, insert}
use atlas_idp.Atlasctl.Seed.{Workload, Params, env_prefix, assign, set_secret}

find-insert : (k v : Bytes) (m : Entries Bytes) → find k (insert k v m) ≡ some v
unfolding insert find
find-insert k v [] = rw ((bytes_eq_iff k k).1 refl)
find-insert k v ((j, u) ∷ m) = ground (arith, find-insert k v m, (bytes_eq_iff k k).1 refl)

strip-longer : (s rest t : Bytes) → strip rest t ≡ none → strip (s ++ rest) (s ++ t) ≡ none
unfolding strip
strip-longer [] rest t h = h
strip-longer (c ∷ s) rest t h = ground (arith, strip-longer s rest t h)

has_prefix-append : (t s : Bytes) → has_prefix (t ++ s) t ≡ true
unfolding has_prefix
has_prefix-append t s = rw (has_prefix, strip-append t s) refl

trim_prefix-longer :
    (s rest t : Bytes) → strip rest t ≡ none → trim_prefix (s ++ rest) (s ++ t) ≡ s ++ rest
unfolding trim_prefix
trim_prefix-longer s rest t h = rw (trim_prefix, strip-longer s rest t h) refl

assign-foreign :
    (prefix rest value : Bytes) (p : Params)
    → strip rest (codes "_") ≡ none
    → assign prefix (prefix ++ rest) value p
      ≡ set_secret
          (prefix ++ rest)
          value
          (record p { raw_env = insert (prefix ++ rest) value p.raw_env })
unfolding assign
assign-foreign prefix rest value p h =
    rw (assign, has_prefix-append prefix rest, trim_prefix-longer prefix rest (codes "_") h) refl

set_secret-foreign :
    (s value : Bytes) (p : Params)
    → find (codes "VL_" ++ s) (set_secret (codes "VL_" ++ s) value p).extra_secrets ≡ some value
unfolding set_secret bytes_eq
set_secret-foreign s value p = find-insert (codes "VL_" ++ s) value p.extra_secrets

-- `LoadParams` takes a name that begins with the workload's prefix and goes on with something else
-- than an underscore, as that of a workload with a longer name, for a secret of this workload under
-- its whole name.
pub assign-takes :
    (wl : Workload) (rest value : Bytes) (p : Params)
    → strip rest (codes "_") ≡ none
    → find
        (env_prefix wl ++ rest)
        (assign (env_prefix wl) (env_prefix wl ++ rest) value p).extra_secrets
      ≡ some value
assign-takes wl rest value p h = rw (assign-foreign (env_prefix wl) rest value p h) (
    unfold env_prefix in
    set_secret-foreign _ value
      (record p { raw_env = insert (env_prefix wl ++ rest) value p.raw_env }))
