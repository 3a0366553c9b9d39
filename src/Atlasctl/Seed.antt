-- ===== src/Atlasctl/Seed.antt =====
-- tools/atlasctl/pkg/seed/seed.go and the command of tools/atlasctl/cmd/seed.go. What is printed is
-- left out; paths are joined as filepath.Join joins a clean directory and a name.
pub mod Names
pub mod ReadBack
pub mod Database
pub mod Storage
pub mod Secrets
pub mod Command
use atlas_idp.Common.{
  ℕ, Bool, true, false, not, ◌&&◌, ◌||◌, Option, none, some, List, [], ◌∷◌, ◌++◌, map, Bytes, codes,
  Act, ◌>>=◌, ◌>>◌, pure, if◌then◌else◌,
}
use atlas_idp.Text.{
  bytes_eq, has_prefix, trim_prefix, has_suffix, contains, trim_space, split_2, fields, scan_lines,
  replace, to_upper, to_lower,
}
use atlas_idp.Atlasctl.Kube.{
  Outcome, fine, fault, Machine, content, missing, unreadable, Entries, insert, find, wrapped,
  pod_exec, secret_read_decoded, get_pod_name, kv_put,
}

pub record Workload : Type 0 where
  pub group : Bytes
  pub app : Bytes
  pub dir : Bytes

pub record Params : Type 0 where
  pub workload : Workload
  pub db_password : Bytes
  pub s3_access_key : Bytes
  pub s3_secret_key : Bytes
  pub redis_pass : Bytes
  pub extra_secrets : Entries Bytes
  pub raw_env : Entries Bytes

pub record MappingEntry : Type 0 where
  pub vault_path : Bytes
  pub key : Bytes
  pub env_var : Bytes
  pub decode_b64 : Bool

abbrev pub file_in : Bytes → Bytes → Bytes
file_in dir name = dir ++ (codes "/" ++ name)

-- whether a trimmed line is skipped
pub is_comment : Bytes → Bool
unfolding bytes_eq has_prefix
is_comment line = bytes_eq line [] || has_prefix line (codes "#")

-- the entry of a line of seed-mapping.conf, none where the line is passed over
mapping_entry : Bytes → Option MappingEntry
unfolding is_comment fields split_2 has_suffix trim_space
mapping_entry text =
    if is_comment (trim_space text) then none else elim (fields (trim_space text)) [
      | vault_path ∷ assigned ∷ [] ↦ elim (split_2 61 assigned) [
        | none ↦ none
        | some (key, env_var) ↦ some (record {
          vault_path = vault_path;
          key = key;
          env_var = env_var;
          decode_b64 = has_suffix env_var (codes "_B64");
        })
      ]
      | _ ↦ none
    ]

mapping_entries : List Bytes → List MappingEntry
unfolding mapping_entry
mapping_entries [] = []
mapping_entries (line ∷ lines) =
    let rest = mapping_entries lines in
    elim (mapping_entry line) [ none ↦ rest | some entry ↦ entry ∷ rest ]

-- the prefix of the names of a workload
pub env_prefix : Workload → Bytes
unfolding replace to_upper
env_prefix wl =
    codes "VL_"
    ++ (to_upper (replace 45 95 wl.group) ++ (codes "_" ++ to_upper (replace 45 95 wl.app)))

pub set_secret : Bytes → Bytes → Params → Params
unfolding bytes_eq insert
set_secret suffix value p =
    if bytes_eq suffix (codes "DB_PASSWORD")
    then record p { db_password = value }
    else if bytes_eq suffix (codes "S3_ACCESS_KEY")
    then record p { s3_access_key = value }
    else if bytes_eq suffix (codes "S3_SECRET_KEY")
    then record p { s3_secret_key = value }
    else if bytes_eq suffix (codes "REDIS_PASSWORD")
    then record p { redis_pass = value }
    else record p { extra_secrets = insert suffix value p.extra_secrets }

pub assign : Bytes → Bytes → Bytes → Params → Params
unfolding set_secret has_prefix trim_prefix insert
assign prefix name value p =
    let p' = record p { raw_env = insert name value p.raw_env } in
    if has_prefix name prefix
    then set_secret (trim_prefix name (prefix ++ codes "_")) value p'
    else p'

pub load_line : Bytes → Bytes → Params → Params
unfolding assign split_2 is_comment trim_space
load_line prefix text p =
    if is_comment (trim_space text) then p else elim (split_2 61 (trim_space text)) [
      | none ↦ p
      | some (name, value) ↦ assign prefix name value p
    ]

pub load_lines : Bytes → List Bytes → Params → Params
unfolding load_line
load_lines prefix [] p = p
load_lines prefix (line ∷ lines) p = load_lines prefix lines (load_line prefix line p)

pub no_params : Workload → Params
no_params wl = record {
  workload = wl;
  db_password = [];
  s3_access_key = [];
  s3_secret_key = [];
  redis_pass = [];
  extra_secrets = [];
  raw_env = [];
}

-- `ValidateParams`: the error, or none
pub validate_params : Params → Option Bytes
unfolding bytes_eq
validate_params p =
    if bytes_eq p.db_password []
    then some (codes "DB_PASSWORD is empty in .secret-seed")
    else if bytes_eq p.s3_access_key []
    then some (codes "S3_ACCESS_KEY is empty in .secret-seed")
    else if bytes_eq p.s3_secret_key []
    then some (codes "S3_SECRET_KEY is empty in .secret-seed")
    else if bytes_eq p.redis_pass []
    then some (codes "REDIS_PASSWORD is empty in .secret-seed")
    else none

pub bucket_of : Workload → Bytes
bucket_of wl = codes "workloads/" ++ (wl.group ++ (codes "/" ++ wl.app))

module _ (m : Machine) where
  pub parse_mapping : Bytes → Act m.World (Outcome (List MappingEntry))
  unfolding mapping_entries scan_lines
  parse_mapping dir = do
    opened ← m.open_file (file_in dir (codes "vault/seed-mapping.conf"))
    elim opened [
      | missing _ ↦ pure (fine [])
      | unreadable e ↦ pure (fault (wrapped (codes "open seed-mapping.conf") e))
      | content text ↦ pure (fine (mapping_entries (scan_lines text)))
    ]

  unfoldable pub load_params : Workload → Act m.World (Outcome Params)
  unfolding load_lines scan_lines no_params env_prefix
  load_params wl = do
    absent ← m.stat (file_in wl.dir (codes ".secret-seed"))
    elim absent [
      | some e ↦ pure (fault (wrapped (codes ".secret-seed not found") e))
      | none ↦ do
        opened ← m.open_file (file_in wl.dir (codes ".secret-seed"))
        elim opened [
          | missing e ↦ pure (fault (wrapped (codes "open .secret-seed") e))
          | unreadable e ↦ pure (fault (wrapped (codes "open .secret-seed") e))
          | content text ↦ pure (fine (load_lines (env_prefix wl) (scan_lines text) (no_params wl)))
        ]
    ]

  -- `if v, err := act; err != nil { return fmt.Errorf(what + ": %w", err) }` and then the rest
  unfoldable pub attempt :
      {A : Type 0}
      → Bytes
      → Act m.World (Outcome A)
      → (A → Act m.World (Option Bytes))
      → Act m.World (Option Bytes)
  attempt what act next = do
    answer ← act
    elim answer [ fault e ↦ pure (some (wrapped what e)) | fine a ↦ next a ]
