-- ===== src/Seal/Config.antt =====
-- The addresses that apps/seal/seal-api/internal/config.go and
-- apps/seal/seal-worker/internal/config.go make from the configuration. The environment is read by
-- go-envconfig, so a configuration is given.
pub mod Number
use atlas_idp.Common.{
  ℕ, zero, suc, ◌+◌, ◌/◌, ◌%◌, List, [], ◌∷◌, ◌++◌, Bytes, codes, ◌==◌, if◌then◌else◌,
}

-- Go's int: pos n is n and negsuc n is -(n + 1).
pub data ℤ : Type 0 where
  pos : ℕ → ℤ
  negsuc : ℕ → ℤ

-- the loop of `itoa`, the least digit first
unfoldable pub digits : ℕ → ℕ → Bytes
digits zero n = []
digits (suc fuel) n = let more = digits fuel (n / 10) in if n == 0 then [] else (48 + n % 10) ∷ more

unfoldable pub reverse_onto : Bytes → Bytes → Bytes
reverse_onto [] acc = acc
reverse_onto (c ∷ s) acc = reverse_onto s (c ∷ acc)

-- n divisions by ten are enough to bring n to 0; the loop does not run for a negative number
unfoldable pub itoa : ℤ → Bytes
unfolding digits reverse_onto
itoa (pos n) = if n == 0 then codes "0" else reverse_onto (digits n n) []
itoa (negsuc n) = []

pub record RedisConfig : Type 0 where
  pub host : Bytes
  pub port : ℤ
  pub password : Bytes

pub record DatabaseConfig : Type 0 where
  pub host : Bytes
  pub port : ℤ
  pub user : Bytes
  pub password : Bytes
  pub db_name : Bytes

pub addr : RedisConfig → Bytes
unfolding itoa
addr r = r.host ++ (codes ":" ++ itoa r.port)

unfoldable pub conn_string : DatabaseConfig → Bytes
unfolding itoa
conn_string d =
    codes "postgres://"
    ++ (d.user
        ++ (codes ":"
            ++ (d.password
                ++ (codes "@"
                    ++ (d.host
                        ++ (codes ":"
                            ++ (itoa d.port
                                ++ (codes "/" ++ (d.db_name ++ codes "?sslmode=disable")))))))))
