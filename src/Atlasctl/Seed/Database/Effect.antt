-- ===== src/Atlasctl/Seed/Database/Effect.antt =====
-- What `ProvisionDB` of tools/atlasctl/pkg/seed/seed.go leaves in PostgreSQL.
use atlas_idp.Common.{◌≡◌, Bool, true, Option, some, Bytes}
use atlas_idp.Atlasctl.Kube.{fine, Machine}
use atlas_idp.Atlasctl.Seed.{Params}
use atlas_idp.Atlasctl.Seed.Database.{
  is_one, ask_database, create_database, ask_user, alter_user, create_user, grant_database,
  grant_schema,
}

-- The documented behaviour of PostgreSQL on the statements about one database and one user of the
-- same name: a statement that is answered without an error has done what it says.
pub record ServesPostgres (m : Machine) (name password : Bytes) : Type 0 where
  pub has_database : m.World → Bool
  pub password_of : m.World → Option Bytes
  pub ask_database_says :
      (w : m.World) (out : Bytes)
      → (ask_database m name w).0 ≡ fine out
      → is_one out ≡ has_database w
  pub ask_database_keeps : (w : m.World) → has_database (ask_database m name w).1 ≡ has_database w
  pub ask_user_keeps : (w : m.World) → has_database (ask_user m name w).1 ≡ has_database w
  pub create_database_done :
      (w : m.World) (out : Bytes)
      → (create_database m name w).0 ≡ fine out
      → has_database (create_database m name w).1 ≡ true
  pub alter_user_done :
      (w : m.World) (out : Bytes)
      → (alter_user m name password w).0 ≡ fine out
      → password_of (alter_user m name password w).1 ≡ some password
  pub alter_user_keeps :
      (w : m.World) → has_database (alter_user m name password w).1 ≡ has_database w
  pub create_user_done :
      (w : m.World) (out : Bytes)
      → (create_user m name password w).0 ≡ fine out
      → password_of (create_user m name password w).1 ≡ some password
  pub create_user_keeps :
      (w : m.World) → has_database (create_user m name password w).1 ≡ has_database w
  pub grant_database_keeps :
      (w : m.World)
      → (has_database (grant_database m name w).1 ≡ has_database w)
        × (password_of (grant_database m name w).1 ≡ password_of w)
  pub grant_schema_keeps :
      (w : m.World)
      → (has_database (grant_schema m name w).1 ≡ has_database w)
        × (password_of (grant_schema m name w).1 ≡ password_of w)

module _ (m : Machine) (p : Params) (l : ServesPostgres m p.workload.app p.db_password) where
  -- the database is there and the user has the password
  abbrev pub Provided : m.World → Type 0
  Provided w = (l.has_database w ≡ true) × (l.password_of w ≡ some p.db_password)
