-- ===== src/Atlasctl/Seed/Secrets.antt =====
-- `WriteVault` of tools/atlasctl/pkg/seed/seed.go.
pub mod Undefined
use atlas_idp.Common.{
  Option, none, some, List, [], ◌∷◌, ◌++◌, Bytes, codes, Act, ◌>>=◌, pure, if◌then◌else◌,
}
use atlas_idp.Text.{to_lower}
use atlas_idp.Atlasctl.Kube.{
  Outcome, fine, fault, Machine, Entries, insert, find, wrapped, secret_read_decoded, kv_put,
}
use atlas_idp.Atlasctl.Seed.{Params, MappingEntry, attempt, bucket_of, parse_mapping}

-- a mapping as the entries to write, by path
pub by_path :
    (Bytes → Outcome Bytes)
    → Entries Bytes
    → List MappingEntry
    → Entries (Entries Bytes)
    → Outcome (Entries (Entries Bytes))
unfolding find insert
by_path decode env [] acc = fine acc
by_path decode env (e ∷ entries) acc = elim (find e.env_var env) [
  | none ↦ fault (codes "mapping references undefined env var: " ++ e.env_var)
  | some value ↦ elim (if e.decode_b64 then decode value else fine value) [
    | fault why ↦ fault (codes "base64 decode " ++ wrapped e.env_var why)
    | fine plain ↦ by_path decode env entries (
        insert e.vault_path
          (insert e.key plain (elim (find e.vault_path acc) [ none ↦ [] | some kv ↦ kv ])) acc)
  ]
]

put_all : Entries Bytes → Entries Bytes → Entries Bytes
unfolding insert to_lower
put_all [] entries = entries
put_all ((k, v) ∷ more) entries = put_all more (insert (to_lower k) v entries)

module _ (m : Machine) where
  -- the entries that `WriteVault` writes without a mapping
  vault_data : Params → Bytes → Entries Bytes
  unfolding put_all bucket_of
  vault_data p redis_pass = put_all (m.ranged p.extra_secrets) (
      (codes "db_username", p.workload.app)
      ∷ (codes "db_password", p.db_password)
      ∷ (codes "db_host", codes "production-db-rw.database.svc.cluster.local")
      ∷ (codes "db_port", codes "5432")
      ∷ (codes "db_name", p.workload.app)
      ∷ (codes "s3_access_key", p.s3_access_key)
      ∷ (codes "s3_secret_key", p.s3_secret_key)
      ∷ (codes "s3_endpoint", codes "http://minio.minio.svc.cluster.local:9000")
      ∷ (codes "s3_bucket", bucket_of p.workload)
      ∷ (codes "redis_password", redis_pass)
      ∷ (codes "redis_host", codes "redis-master.redis.svc.cluster.local")
      ∷ (codes "redis_port", codes "6379")
      ∷ [])

  put_paths : Entries (Entries Bytes) → Act m.World (Option Bytes)
  put_paths [] w = (none, w)
  put_paths ((path, kv) ∷ more) w =
      let (failure, w') = kv_put m path kv w in
      let rest = put_paths more w' in
      elim failure [
        | some e ↦ (some (codes "write vault secrets to " ++ wrapped path e), w')
        | none ↦ rest
      ]

  -- `WriteVault` with the entries of the mapping
  pub write_entries : Params → Bytes → List MappingEntry → Act m.World (Option Bytes)
  unfolding vault_data bucket_of put_paths by_path
  write_entries p redis_pass [] = do
    failure ← kv_put m (codes "secret/" ++ bucket_of p.workload) (vault_data p redis_pass)
    elim failure [
      | some e ↦ pure (some (wrapped (codes "write vault secrets") e))
      | none ↦ pure none
    ]
  write_entries p redis_pass (e ∷ entries) =
      elim (by_path m.base64_decode_string p.raw_env (e ∷ entries) []) [
        | fault why ↦ pure (some why)
        | fine paths ↦ put_paths (m.ranged paths)
      ]

  unfoldable pub write_vault : Params → Act m.World (Option Bytes)
  unfolding attempt parse_mapping write_entries
  write_vault p =
      attempt m (codes "read redis password")
        (secret_read_decoded m (codes "redis") (codes "redis-auth") (codes "redis-password"))
        λ redis_pass. do
          mapping ← parse_mapping m p.workload.dir
          elim mapping [
            | fault e ↦ pure (some e)
            | fine entries ↦ write_entries p redis_pass entries
          ]
