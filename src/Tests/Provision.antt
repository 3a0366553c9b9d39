-- ===== src/Tests/Provision.antt =====
-- The theorems on `atlasctl seed` with a kubectl that keeps one database and one user.
use atlas_idp.Common.{
  arith, ◌≡◌, refl, Bool, true, false, Option, none, some, List, [], ◌∷◌, ◌++◌, Bytes, codes,
  if◌then◌else◌,
}
use atlas_idp.Text.{
  scan_lines, to_upper, replace, trim_suffix, trim_right, has_prefix, strip, bytes_eq,
}
use atlas_idp.Atlasctl.Kube.{Machine, Ran, printed, missing, fine, find}
use atlas_idp.Atlasctl.Seed.{
  Workload, Params, MappingEntry, env_prefix, assign, load_lines, no_params,
}
use atlas_idp.Atlasctl.Template.{secret_seed_env}
use atlas_idp.Atlasctl.Seed.ReadBack.{taken, load_lines-secret_seed_env}
use atlas_idp.Atlasctl.Seed.Names.{assign-takes}
use atlas_idp.Atlasctl.Seed.Secrets.{write_entries}
use atlas_idp.Atlasctl.Seed.Secrets.Undefined.{write_entries-undefined}
use atlas_idp.Atlasctl.Seed.Command.{SeedFlags}

-- whether there is the database, and the password of the user
record Server : Type 0 where
  database : Bool
  password : Option Bytes

abbrev secret : Bytes
secret = codes "pw"

abbrev sql_of : List Bytes → Bytes
sql_of [] = []
sql_of (s ∷ []) = s
sql_of (_ ∷ t ∷ more) = sql_of (t ∷ more)

-- the statements by their first bytes: SELECT 1 FROM pg_d..., SELECT 1 FROM pg_r..., C...D..., GRANT
abbrev execute : Bytes → Server → Ran × Server
execute sql s =
    if has_prefix sql (codes "SELECT 1 FROM pg_database")
    then (printed (if s.database then codes " 1\n" else []), s)
    else if has_prefix sql (codes "SELECT 1 FROM pg_roles")
    then (printed (elim s.password [ none ↦ [] | some _ ↦ codes " 1\n" ]), s)
    else if has_prefix sql (codes "CREATE DATABASE")
    then (printed [], record s { database = true })
    else if has_prefix sql (codes "GRANT")
    then (printed [], s)
    else (printed [], record s { password = some secret })

abbrev machine : Machine
machine = record {
  World = Server;
  kubectl = λ args s. execute (sql_of args) s;
  base64_d = λ text s. (printed text, s);
  stat = λ path s. (none, s);
  absent = λ path s. (false, s);
  open_file = λ path s. (missing (codes "no such file"), s);
  base64_decode_string = λ text. fine text;
  ranged = λ entries. entries;
}

abbrev work : Workload
work = record { group = codes "team"; app = codes "demo"; dir = codes "/work" }

abbrev params : Params
params = record {
  workload = work;
  db_password = secret;
  s3_access_key = codes "a";
  s3_secret_key = codes "s";
  redis_pass = codes "r";
  extra_secrets = [];
  raw_env = (codes "KNOWN", codes "v") ∷ [];
}

abbrev empty : Server
empty = record { database = false; password = none }

abbrev known : MappingEntry
known = record {
  vault_path = codes "secret/a";
  key = codes "k";
  env_var = codes "KNOWN";
  decode_b64 = false;
}

abbrev unknown : MappingEntry
unknown = record {
  vault_path = codes "secret/a";
  key = codes "k";
  env_var = codes "OTHER";
  decode_b64 = false;
}

write_entries-undefined_example :
    (why : Bytes) × (write_entries machine params (codes "r") (known ∷ unknown ∷ known ∷ []) empty
      ≡ (some why, empty))
unfolding find bytes_eq
write_entries-undefined_example =
    write_entries-undefined machine params (codes "r") (known ∷ []) (known ∷ []) unknown empty refl

abbrev flags : SeedFlags
flags = record { force = false; dry_run = true; skip_confirm = true; answer = [] }

assign-takes_example :
    find
      (env_prefix work ++ codes "2_TOKEN")
      (assign
        (env_prefix work)
        (env_prefix work ++ codes "2_TOKEN")
        (codes "x")
        params).extra_secrets
    ≡ some (codes "x")
unfolding strip
assign-takes_example = assign-takes work (codes "2_TOKEN") (codes "x") params refl

abbrev secrets : List (Bytes × Bytes)
secrets = (codes "DB_PASSWORD", secret) ∷ (codes "TOKEN", codes "a=b") ∷ []

load_lines-secret_seed_env_example :
    load_lines
      (env_prefix work)
      (scan_lines (secret_seed_env (codes "TEAM") (codes "DEMO") secrets))
      (no_params work)
    ≡ taken (env_prefix work) secrets (no_params work)
unfolding to_upper replace trim_right trim_suffix bytes_eq
load_lines-secret_seed_env_example =
    load_lines-secret_seed_env work secrets (no_params work) (omega arith, omega arith)
      (omega arith, omega arith)
      (
        (
          (omega arith, omega arith),
          record { one_line = omega arith; no_space = refl; no_return = refl },
        ),
        (
          (
            (omega arith, omega arith),
            record { one_line = omega arith; no_space = refl; no_return = refl },
          ),
          tt,
        ),
      )
