-- ===== src/Atlasctl/Config/Merge.antt =====
-- Layers of configuration: `merge` and `applyDefaults` of tools/atlasctl/pkg/config/config.go.
use atlas_idp.Common.{Bool, ap, ◌≡◌, refl, List, [], ◌∷◌, Option, none, some, Bytes}
use atlas_idp.Atlasctl.Config.{
  Config, choose, merge, merge_if, or_default, apply_defaults, resolve_paths, load, load_with,
}
use atlas_idp.Atlasctl.Kube.{fine}

choose_assoc {ℓ} : {A : Type ℓ} (a b c : List A) → choose (choose a b) c ≡ choose a (choose b c)
choose_assoc a b [] = refl
choose_assoc a b (x ∷ xs) = refl

-- Layers of configuration may be merged in either grouping.
merge_assoc : (a b c : Config) → merge (merge a b) c ≡ merge a (merge b c)
unfolding merge
merge_assoc a b c = simp choose_assoc

-- The configuration that gives nothing.
abbrev pub nothing : Config
nothing = record {
  templates = record { dir = [] };
  scaffold = record { dir = [] };
  gitops = record { workloads_dir = []; gateway_file = []; gateway_routes_dir = [] };
  defaults = record {
    repo_path = [];
    gateway_port = [];
    chart_revision = [];
    target_revision = [];
    hostname_pattern = [];
  };
  seed = record { keys = [] };
  backup = record { cluster_pattern = []; namespace = [] };
}

-- The defaults of the program by themselves.
abbrev pub built_in : Config
unfolding apply_defaults
built_in = apply_defaults nothing

choose-nil {ℓ} : {A : Type ℓ} (a : List A) → choose [] a ≡ a
choose-nil [] = refl
choose-nil (x ∷ xs) = refl

choose_self {ℓ} : {A : Type ℓ} (a : List A) → choose a a ≡ a
choose_self [] = refl
choose_self (x ∷ xs) = refl

or_default-choose : (a d : Bytes) → or_default a d ≡ choose d a
or_default-choose [] d = refl
or_default-choose (x ∷ xs) d = refl

-- A layer of configuration that gives nothing changes nothing, above or below another, and a layer
-- over itself is itself.
merge-nothing : (c : Config) → (merge c nothing ≡ c) × (merge nothing c ≡ c) × (merge c c ≡ c)
unfolding merge
merge-nothing c = (refl, simp choose-nil, simp choose_self)

-- Filling in the defaults is merging the configuration over the built-in one.
apply_defaults-eq-merge : (c : Config) → apply_defaults c ≡ merge built_in c
unfolding apply_defaults merge
apply_defaults-eq-merge c = simp (or_default-choose, choose-nil)

-- A layer that may be absent.
abbrev pub given : Option Config → Config
given none = nothing
given (some c) = c

merge_if-eq-merge : (base : Config) (o : Option Config) → merge_if base o ≡ merge base (given o)
unfolding merge
merge_if-eq-merge base none = refl
merge_if-eq-merge base (some over) = refl

-- Where the embedded file can be parsed, `Load` gives no error and resolves the paths of one merge
-- of four layers, each over the one before: the built-in defaults, the embedded file, the overlay
-- and the user's file, where an absent one gives nothing.
pub load-layers :
    (has_makefile : List Bytes → Bool) (cwd : Option (List Bytes)) (embedded : Config)
    (overlay user : Option Config)
    → load has_makefile cwd (fine embedded) overlay user
      ≡ fine (
          resolve_paths has_makefile cwd
            (merge built_in (merge embedded (merge (given overlay) (given user)))))
unfolding load load_with
load-layers has_makefile cwd embedded overlay user =
    ap (λ c. fine (resolve_paths has_makefile cwd c))
      (simp (merge_if-eq-merge, apply_defaults-eq-merge, merge_assoc)
        (ap (merge built_in) (merge_assoc embedded (given overlay) (given user))))
