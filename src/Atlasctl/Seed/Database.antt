-- ===== src/Atlasctl/Seed/Database.antt =====
-- `ProvisionDB` of tools/atlasctl/pkg/seed/seed.go.
pub mod Effect
use atlas_idp.Common.{
  Bool, Option, none, List, [], ◌∷◌, ◌++◌, Bytes, codes, Act, pure, if◌then◌else◌,
}
use atlas_idp.Text.{bytes_eq, trim_space}
use atlas_idp.Atlasctl.Kube.{Outcome, Machine, pod_exec}
use atlas_idp.Atlasctl.Seed.{Params, attempt}

unfoldable pub is_one : Bytes → Bool
unfolding bytes_eq trim_space
is_one text = bytes_eq (trim_space text) (codes "1")

module _ (m : Machine) where
  abbrev psql : List Bytes → Act m.World (Outcome Bytes)
  psql args = pod_exec m (codes "database") (codes "production-db-1") (codes "psql" ∷ args)

  unfoldable pub ask_database : Bytes → Act m.World (Outcome Bytes)
  ask_database name = psql (
      codes "-t"
      ∷ codes "-c"
      ∷ (codes "SELECT 1 FROM pg_database WHERE datname='" ++ (name ++ codes "'"))
      ∷ [])

  unfoldable pub create_database : Bytes → Act m.World (Outcome Bytes)
  create_database name = psql (codes "-c" ∷ (codes "CREATE DATABASE " ++ name) ∷ [])

  unfoldable pub ask_user : Bytes → Act m.World (Outcome Bytes)
  ask_user name = psql (
      codes "-t"
      ∷ codes "-c"
      ∷ (codes "SELECT 1 FROM pg_roles WHERE rolname='" ++ (name ++ codes "'"))
      ∷ [])

  unfoldable pub alter_user : Bytes → Bytes → Act m.World (Outcome Bytes)
  alter_user name password = psql (
      codes "-c"
      ∷ (codes "ALTER USER " ++ (name ++ (codes " WITH PASSWORD '" ++ (password ++ codes "'"))))
      ∷ [])

  unfoldable pub create_user : Bytes → Bytes → Act m.World (Outcome Bytes)
  create_user name password = psql (
      codes "-c"
      ∷ (codes "CREATE USER " ++ (name ++ (codes " WITH PASSWORD '" ++ (password ++ codes "'"))))
      ∷ [])

  unfoldable pub grant_database : Bytes → Act m.World (Outcome Bytes)
  grant_database name = psql (
      codes "-c"
      ∷ (codes "GRANT ALL PRIVILEGES ON DATABASE " ++ (name ++ (codes " TO " ++ name)))
      ∷ [])

  unfoldable pub grant_schema : Bytes → Act m.World (Outcome Bytes)
  grant_schema name =
      psql (codes "-d" ∷ name ∷ codes "-c" ∷ (codes "GRANT ALL ON SCHEMA public TO " ++ name) ∷ [])

  -- the grants at the end of `ProvisionDB`
  unfoldable pub grants : Bytes → Act m.World (Option Bytes)
  unfolding attempt grant_database grant_schema
  grants name =
      attempt m (codes "grant db privileges") (grant_database name)
        λ _. attempt m (codes "grant schema privileges") (grant_schema name) (λ _. pure none)

  -- `ProvisionDB` from the question for the user on
  unfoldable pub provision_user : Params → Act m.World (Option Bytes)
  unfolding attempt ask_user alter_user create_user is_one grants
  provision_user p =
      let name = p.workload.app in
      attempt m (codes "check user exists") (ask_user name) λ exists.
        if is_one exists
        then attempt m (codes "update user password") (alter_user name p.db_password)
            (λ _. grants name)
        else attempt m (codes "create user") (create_user name p.db_password) (λ _. grants name)

  unfoldable pub provision_db : Params → Act m.World (Option Bytes)
  unfolding attempt ask_database create_database is_one provision_user
  provision_db p =
      let name = p.workload.app in
      attempt m (codes "check db exists") (ask_database name) λ exists.
        if is_one exists
        then provision_user p
        else attempt m (codes "create database") (create_database name) (λ _. provision_user p)
