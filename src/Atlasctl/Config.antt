-- ===== src/Atlasctl/Config.antt =====
-- tools/atlasctl/pkg/config/config.go. Texts are bytes. The working directory is the list of its
-- components, innermost first, and the file system is asked through a function.
pub mod Merge
pub mod Paths
use mathlib.Core.List.{reverse}
use atlas_idp.Common.{
  ℕ, Bool, true, false, not, ◌&&◌, ◌||◌, Option, none, some, List, [], ◌∷◌, ◌++◌, Bytes, codes,
  ◌==◌, if◌then◌else◌, Result, ok, err,
}
use atlas_idp.Atlasctl.Kube.{Outcome, fine, fault, wrapped}

pub record TemplatesConfig : Type 0 where
  pub dir : Bytes

pub record ScaffoldConfig : Type 0 where
  pub dir : Bytes

pub record GitopsConfig : Type 0 where
  pub workloads_dir : Bytes
  pub gateway_file : Bytes
  pub gateway_routes_dir : Bytes

pub record DefaultsConfig : Type 0 where
  pub repo_path : Bytes
  pub gateway_port : Bytes
  pub chart_revision : Bytes
  pub target_revision : Bytes
  pub hostname_pattern : Bytes

pub record SeedKey : Type 0 where
  pub name : Bytes
  pub generator : Bytes
  pub length : ℕ
  pub env_key : Bytes

pub record SeedConfig : Type 0 where
  pub keys : List SeedKey

pub record BackupConfig : Type 0 where
  pub cluster_pattern : Bytes
  pub namespace : Bytes

pub record Config : Type 0 where
  pub templates : TemplatesConfig
  pub scaffold : ScaffoldConfig
  pub gitops : GitopsConfig
  pub defaults : DefaultsConfig
  pub seed : SeedConfig
  pub backup : BackupConfig

-- `base` unless `over` is given: `if over.X != "" { base.X = over.X }`, and so for the keys.
abbrev pub choose {ℓ} : {A : Type ℓ} → List A → List A → List A
choose base [] = base
choose base (x ∷ xs) = x ∷ xs

pub merge : Config → Config → Config
merge base over = record {
  templates = record { dir = choose base.templates.dir over.templates.dir };
  scaffold = record { dir = choose base.scaffold.dir over.scaffold.dir };
  gitops = record {
    workloads_dir = choose base.gitops.workloads_dir over.gitops.workloads_dir;
    gateway_file = choose base.gitops.gateway_file over.gitops.gateway_file;
    gateway_routes_dir = choose base.gitops.gateway_routes_dir over.gitops.gateway_routes_dir;
  };
  defaults = record {
    repo_path = choose base.defaults.repo_path over.defaults.repo_path;
    gateway_port = choose base.defaults.gateway_port over.defaults.gateway_port;
    chart_revision = choose base.defaults.chart_revision over.defaults.chart_revision;
    target_revision = choose base.defaults.target_revision over.defaults.target_revision;
    hostname_pattern = choose base.defaults.hostname_pattern over.defaults.hostname_pattern;
  };
  seed = record { keys = choose base.seed.keys over.seed.keys };
  backup = record {
    cluster_pattern = choose base.backup.cluster_pattern over.backup.cluster_pattern;
    namespace = choose base.backup.namespace over.backup.namespace;
  };
}

-- `if c.X == "" { c.X = d }`
abbrev pub or_default : Bytes → Bytes → Bytes
or_default [] d = d
or_default (x ∷ xs) d = x ∷ xs

pub apply_defaults : Config → Config
apply_defaults c = record {
  templates = record { dir = or_default c.templates.dir (codes "templates/gold") };
  scaffold = record { dir = or_default c.scaffold.dir (codes "workloads") };
  gitops = record {
    workloads_dir = or_default c.gitops.workloads_dir (codes "gitops/workloads");
    gateway_file =
        or_default c.gitops.gateway_file
          (codes "gitops/platform/base/resources/gateway-resources/gateway.yaml");
    gateway_routes_dir =
        or_default c.gitops.gateway_routes_dir
          (codes "gitops/platform/base/resources/gateway-routes");
  };
  defaults = record {
    repo_path = or_default c.defaults.repo_path (codes ".");
    gateway_port = or_default c.defaults.gateway_port (codes "8080");
    chart_revision = or_default c.defaults.chart_revision (codes "main");
    target_revision = or_default c.defaults.target_revision (codes "main");
    hostname_pattern = or_default c.defaults.hostname_pattern (codes "{{APP}}.atlas");
  };
  seed = c.seed;
  backup = record {
    cluster_pattern = or_default c.backup.cluster_pattern (codes "{{APP}}-db");
    namespace = or_default c.backup.namespace (codes "database");
  };
}

-- `FindRepoRoot`: from the working directory up, the first directory with a Makefile.
pub find_repo_root : (List Bytes → Bool) → List Bytes → Option (List Bytes)
find_repo_root has_makefile [] = if has_makefile [] then some [] else none
find_repo_root has_makefile (name ∷ above) =
    if has_makefile (name ∷ above) then some (name ∷ above) else find_repo_root has_makefile above

-- filepath.IsAbs
abbrev pub is_abs : Bytes → Bool
is_abs [] = false
is_abs (c ∷ _) = c == b'/'

-- filepath.Join of an absolute directory and a relative path: the path's parts in turn, where an
-- empty one and "." are skipped and ".." goes up.
abbrev pub parent : List Bytes → List Bytes
parent [] = []
parent (_ ∷ above) = above

abbrev pub enter : List Bytes → Bytes → List Bytes
enter dir [] = dir
enter dir (c ∷ []) = if c == b'.' then dir else (c ∷ []) ∷ dir
enter dir (c ∷ d ∷ []) = if c == b'.' && d == b'.' then parent dir else (c ∷ d ∷ []) ∷ dir
enter dir part = part ∷ dir

unfoldable pub walk : List Bytes → Bytes → Bytes → List Bytes
walk dir part [] = enter dir part
walk dir part (c ∷ path) =
    let closed = walk (enter dir part) [] path in
    let longer = walk dir (part ++ c ∷ []) path in if c == b'/' then closed else longer

-- a directory as text, with what follows it
spell : List Bytes → Bytes → Bytes
spell [] rest = rest
spell (name ∷ above) rest = spell above (b'/' ∷ (name ++ rest))

unfoldable pub spelled : List Bytes → Bytes
unfolding spell
spelled [] = b'/' ∷ []
spelled (name ∷ dir) = spell (name ∷ dir) []

unfoldable pub join : List Bytes → Bytes → Bytes
unfolding walk spelled
join root path = spelled (walk root [] path)

abbrev pub resolve : List Bytes → Bytes → Bytes
resolve root [] = []
resolve root (c ∷ path) = if c == b'/' then c ∷ path else join root (c ∷ path)

abbrev resolve_all : List Bytes → Config → Config
resolve_all root c = record c {
  templates = record { dir = resolve root c.templates.dir };
  scaffold = record { dir = resolve root c.scaffold.dir };
  gitops = record {
    workloads_dir = resolve root c.gitops.workloads_dir;
    gateway_file = resolve root c.gitops.gateway_file;
    gateway_routes_dir = resolve root c.gitops.gateway_routes_dir;
  };
}

-- `resolvePaths`; `cwd` is none where os.Getwd fails. With no relative path the search for the
-- root has no effect.
pub resolve_paths : (List Bytes → Bool) → Option (List Bytes) → Config → Config
resolve_paths has_makefile none c = c
resolve_paths has_makefile (some cwd) c = elim (find_repo_root has_makefile cwd) [
  | none ↦ c
  | some root ↦ resolve_all root c
]

abbrev pub merge_if : Config → Option Config → Config
merge_if base none = base
merge_if base (some over) = merge base over

-- `Load` behind the parsing of the embedded file: `overlay` and `user` are the two optional files,
-- none where they are absent, disabled or cannot be read.
pub load_with :
    (List Bytes → Bool) → Option (List Bytes) → Config → Option Config → Option Config → Config
unfolding resolve_paths merge apply_defaults
load_with has_makefile cwd embedded overlay user =
    resolve_paths has_makefile cwd (merge_if (merge_if (apply_defaults embedded) overlay) user)

-- `Load`; `embedded` is what parsing the embedded file gives
pub load :
    (List Bytes → Bool)
    → Option (List Bytes)
    → Outcome Config
    → Option Config
    → Option Config
    → Outcome Config
unfolding load_with
load has_makefile cwd (fault e) overlay user = fault (wrapped (codes "parse default config") e)
load has_makefile cwd (fine embedded) overlay user =
    fine (load_with has_makefile cwd embedded overlay user)
