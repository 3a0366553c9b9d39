-- ===== src/Atlasctl/Config/Paths.antt =====
-- The paths of a loaded configuration: `resolvePaths` and `FindRepoRoot` of
-- tools/atlasctl/pkg/config/config.go.
use atlas_idp.Common.{
  ◌≡◌, ◌≢◌, refl, sym, ap, Bool, true, false, Option, some, List, [], ◌∷◌, ◌++◌, Bytes, arith,
  Bool-cases, inl, inr,
}
use atlas_idp.Atlasctl.Config.{
  merge, choose, Config, find_repo_root, is_abs, walk, spell, spelled, join, resolve, resolve_paths,
  load, apply_defaults,
}
use atlas_idp.Atlasctl.Kube.{fine}
use atlas_idp.Atlasctl.Config.Merge.{load-layers, built_in, given}

spell-is_abs :
    (dir : List Bytes) (rest : Bytes) → is_abs rest ≡ true → is_abs (spell dir rest) ≡ true
unfolding spell
spell-is_abs [] rest h = h
spell-is_abs (name ∷ above) rest h = spell-is_abs above _ refl

spelled-is_abs : (dir : List Bytes) → is_abs (spelled dir) ≡ true
unfolding spelled
spelled-is_abs [] = refl
spelled-is_abs (name ∷ above) = spell-is_abs above _ refl

join-is_abs : (root : List Bytes) (path : Bytes) → is_abs (join root path) ≡ true
unfolding join
join-is_abs root path = spelled-is_abs (walk root [] path)

resolve-is_abs : (root : List Bytes) (path : Bytes) → path ≢ [] → is_abs (resolve root path) ≡ true
resolve-is_abs root [] h = absurd (h refl)
resolve-is_abs root (c ∷ path) h = ground (arith, join-is_abs root (c ∷ path))

-- The five paths of a configuration are absolute.
pub record IsPlaced (c : Config) : Type 0 where
  pub templates : is_abs c.templates.dir ≡ true
  pub scaffold : is_abs c.scaffold.dir ≡ true
  pub workloads : is_abs c.gitops.workloads_dir ≡ true
  pub gateway_file : is_abs c.gitops.gateway_file ≡ true
  pub gateway_routes : is_abs c.gitops.gateway_routes_dir ≡ true

choose-ne-nil : (base over : Bytes) → base ≢ [] → choose base over ≢ []
choose-ne-nil base [] h = h
choose-ne-nil base (y ∷ ys) h = λ e. cc

placed :
    (root : List Bytes) (base over : Bytes)
    → base ≢ []
    → is_abs (resolve root (choose base over)) ≡ true
placed root base over h = resolve-is_abs root (choose base over) (choose-ne-nil base over h)

-- Whatever the three files say, if the embedded one can be parsed and a Makefile is found in the working directory or above it, the
-- five paths of the loaded configuration are absolute.
load-IsPlaced :
    (has_makefile : List Bytes → Bool) (cwd root : List Bytes) (embedded : Config)
    (overlay user : Option Config)
    → find_repo_root has_makefile cwd ≡ some root
    → (c : Config) × (load has_makefile (some cwd) (fine embedded) overlay user ≡ fine c)
      × IsPlaced c
unfolding resolve_paths merge apply_defaults
load-IsPlaced has_makefile cwd root embedded overlay user found =
    let m = merge embedded (merge (given overlay) (given user)) in
    (
      resolve_paths has_makefile (some cwd) (merge built_in m),
      load-layers has_makefile (some cwd) embedded overlay user,
      rw (resolve_paths, found)
          (record {
            templates = placed root built_in.templates.dir m.templates.dir (λ e. cc);
            scaffold = placed root built_in.scaffold.dir m.scaffold.dir (λ e. cc);
            workloads = placed root built_in.gitops.workloads_dir m.gitops.workloads_dir (λ e. cc);
            gateway_file = placed root built_in.gitops.gateway_file m.gitops.gateway_file (λ e. cc);
            gateway_routes =
                placed root built_in.gitops.gateway_routes_dir m.gitops.gateway_routes_dir
                  (λ e. cc);
          }),
    )

nil-eq-append : (a b : List Bytes) → ◌≡◌ {A = List Bytes} [] (a ++ b) → b ≡ []
nil-eq-append [] b h = sym h
nil-eq-append (x ∷ a) b h = cc

module _ (has_makefile : List Bytes → Bool) where
  -- no directory from `below ++ root` up to below `root` has a Makefile
  abbrev IsBare : List Bytes → List Bytes → Type 0
  IsBare below root =
      (above near : List Bytes)
      → below ≡ above ++ near
      → near ≢ []
      → has_makefile (near ++ root) ≡ false

  IsBare-cons :
      (name : Bytes) (below root : List Bytes)
      → has_makefile (name ∷ (below ++ root)) ≡ false
      → IsBare below root
      → IsBare (name ∷ below) root
  IsBare-cons name below root gone bare [] near e h = rw (← e) gone
  IsBare-cons name below root gone bare (x ∷ above) near e h = bare above near (cc) h

-- The root that `FindRepoRoot` finds is the working directory or a directory above it, has a
-- Makefile, and no directory from the working directory up to below it has one.
find_repo_root-nearest :
    (has_makefile : List Bytes → Bool) (cwd root : List Bytes)
    → find_repo_root has_makefile cwd ≡ some root
    → (below : List Bytes) × (cwd ≡ below ++ root)
      × (has_makefile root ≡ true)
      × ((above near : List Bytes)
          → below ≡ above ++ near
          → near ≢ []
          → has_makefile (near ++ root) ≡ false)
unfolding find_repo_root
find_repo_root-nearest has_makefile [] root found = elim (Bool-cases (has_makefile [])) [
  | inl here ↦
      let e : root ≡ [] = ground arith in
      ([], sym e, rw e here, λ above near split h. absurd (h (nil-eq-append above near split)))
  | inr gone ↦ absurd (ground arith)
]
find_repo_root-nearest has_makefile (name ∷ above) root found =
    elim (Bool-cases (has_makefile (name ∷ above))) [
      | inl here ↦
          let e : root ≡ name ∷ above = ground arith in
          ([], sym e, rw e here, λ above near split h. absurd (h (nil-eq-append above near split)))
      | inr gone ↦
          let (below, split, here, bare) =
            find_repo_root-nearest has_makefile above root (ground arith) in
          (
            name ∷ below,
            ap (λ (d : List Bytes). name ∷ d) split,
            here,
            IsBare-cons has_makefile name below root (rw (← split) gone) bare,
          )
    ]
