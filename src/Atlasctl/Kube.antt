-- ===== src/Atlasctl/Kube.antt =====
-- tools/atlasctl/pkg/k8s/k8s.go and tools/atlasctl/pkg/vault/vault.go. The programs kubectl and
-- base64, the files and the order in which Go ranges over a map are parameters.
use atlas_idp.Common.{
  ◌≡◌, ◌⊎◌, inl, inr, refl, ℕ, Bool, false, not, Option, none, some, List, [], ◌∷◌, ◌++◌, map,
  Bytes, codes, Act, ◌>>=◌, pure, if◌then◌else◌, decimal,
}
use atlas_idp.Text.{bytes_eq, trim_space, join}

-- A Go `(value, error)` whose error is a text of bytes.
pub data Outcome {ℓ} (A : Type ℓ) : Type ℓ where
  fine : A → Outcome A
  fault : Bytes → Outcome A

-- How a program that was run ended: its output, or its error output and the error of Run.
pub data Ran : Type 0 where
  printed : Bytes → Ran
  broke : (stderr error : Bytes) → Ran

pub Outcome-cases {ℓ} :
    {A : Type ℓ} (r : Outcome A) → ((e : Bytes) × (r ≡ fault e)) ⊎ ((a : A) × (r ≡ fine a))
Outcome-cases (fine a) = inr (a, refl)
Outcome-cases (fault e) = inl (e, refl)

-- What os.Open and reading give.
pub data Opened : Type 0 where
  content : Bytes → Opened
  missing : Bytes → Opened
  unreadable : Bytes → Opened

pub record Machine : Type 1 where
  pub World : Type 0
  pub kubectl : List Bytes → Act World Ran
  -- `base64 -d` with an input
  pub base64_d : Bytes → Act World Ran
  pub stat : Bytes → Act World (Option Bytes)
  -- os.IsNotExist of the error of os.Stat
  pub absent : Bytes → Act World Bool
  pub open_file : Bytes → Act World Opened
  -- base64.StdEncoding.DecodeString
  pub base64_decode_string : Bytes → Outcome Bytes
  -- the entries of a map in the order in which a loop meets them
  pub ranged : {A : Type 0} → List A → List A

-- A map as the list of its entries.
abbrev pub Entries : Type 0 → Type 0
Entries A = List (Bytes × A)

unfoldable pub insert : {A : Type 0} → Bytes → A → Entries A → Entries A
unfolding bytes_eq
insert k v [] = (k, v) ∷ []
insert k v ((j, u) ∷ m) = if bytes_eq j k then (k, v) ∷ m else (j, u) ∷ insert k v m

unfoldable pub find : {A : Type 0} → Bytes → Entries A → Option A
unfolding bytes_eq
find k [] = none
find k ((j, u) ∷ m) = if bytes_eq j k then some u else find k m

-- `fmt.Errorf("%s: %w", what, e)`
abbrev pub wrapped : Bytes → Bytes → Bytes
wrapped what e = what ++ (codes ": " ++ e)

module _ (m : Machine) where
  unfoldable pub run : List Bytes → Act m.World (Outcome Bytes)
  unfolding join trim_space
  run args = do
    ended ← m.kubectl args
    elim ended [
      | printed out ↦ pure (fine out)
      | broke stderr e ↦
          pure (fault (codes "kubectl " ++ wrapped (join 32 args) (wrapped (trim_space stderr) e)))
    ]

  unfoldable pub pod_exec : Bytes → Bytes → List Bytes → Act m.World (Outcome Bytes)
  unfolding run
  pod_exec namespace pod args =
      run ((codes "exec" ∷ codes "-n" ∷ namespace ∷ pod ∷ codes "--" ∷ []) ++ args)

  secret_read : Bytes → Bytes → Bytes → Act m.World (Outcome Bytes)
  unfolding run trim_space
  secret_read namespace name json_path = do
    out ← run (
        codes "get"
        ∷ codes "secret"
        ∷ codes "-n"
        ∷ namespace
        ∷ name
        ∷ codes "-o"
        ∷ (codes "jsonpath={.data." ++ (json_path ++ codes "}"))
        ∷ [])
    elim out [
      | fine text ↦ pure (fine (trim_space text))
      | fault e ↦ pure (
          fault (
            codes "read secret "
            ++ wrapped (namespace ++ (codes "/" ++ (name ++ (codes " key " ++ json_path)))) e))
    ]

  base64_decode : Bytes → Act m.World (Outcome Bytes)
  unfolding trim_space
  base64_decode s = do
    ended ← m.base64_d s
    elim ended [
      | printed out ↦ pure (fine (trim_space out))
      | broke _ e ↦ pure (fault (wrapped (codes "base64 decode") e))
    ]

  unfoldable pub secret_read_decoded : Bytes → Bytes → Bytes → Act m.World (Outcome Bytes)
  unfolding secret_read base64_decode bytes_eq
  secret_read_decoded namespace name json_path = do
    encoded ← secret_read namespace name json_path
    elim encoded [
      | fault e ↦ pure (fault e)
      | fine text ↦ if bytes_eq text [] then pure (fine []) else base64_decode text
    ]

  unfoldable pub get_pod_name : Bytes → Bytes → Act m.World (Outcome Bytes)
  unfolding run trim_space
  get_pod_name namespace label = do
    out ← run (
        codes "get"
        ∷ codes "pod"
        ∷ codes "-n"
        ∷ namespace
        ∷ codes "-l"
        ∷ label
        ∷ codes "-o"
        ∷ codes "jsonpath={.items[0].metadata.name}"
        ∷ [])
    elim out [
      | fine text ↦ pure (fine (trim_space text))
      | fault e ↦ pure (fault (codes "get pod " ++ wrapped (namespace ++ (codes "/" ++ label)) e))
    ]

  -- an error counts as no
  unfoldable pub namespace_exists : Bytes → Act m.World Bool
  unfolding run trim_space bytes_eq
  namespace_exists namespace = do
    out ← run (codes "get" ∷ codes "namespace" ∷ namespace ∷ codes "-o" ∷ codes "name" ∷ [])
    elim out [ fine text ↦ pure (not (bytes_eq (trim_space text) [])) | fault _ ↦ pure false ]

  unfoldable pub pod_logs : Bytes → Bytes → ℕ → Act m.World (Outcome Bytes)
  unfolding run decimal
  pod_logs namespace pod tail =
      run (
        codes "logs"
        ∷ codes "-n"
        ∷ namespace
        ∷ pod
        ∷ (codes "--tail=" ++ codes (decimal tail))
        ∷ [])

  -- `readRootToken` of the Vault client
  read_root_token : Act m.World (Outcome Bytes)
  unfolding trim_space bytes_eq base64_decode
  read_root_token = do
    ended ← m.kubectl (
        codes "get"
        ∷ codes "secret"
        ∷ codes "-n"
        ∷ codes "vault"
        ∷ codes "vault-unseal-keys"
        ∷ codes "-o"
        ∷ codes "jsonpath={.data.vault-root}"
        ∷ [])
    elim ended [
      | broke stderr e ↦
          pure (fault (wrapped (codes "get vault root token") (wrapped (trim_space stderr) e)))
      | printed out ↦
          if bytes_eq (trim_space out) []
          then pure (fault (codes "vault root token is empty"))
          else do
            decoded ← base64_decode (trim_space out)
            elim decoded [
              | fine token ↦ pure (fine token)
              | fault e ↦ pure (fault (wrapped (codes "decode vault token") e))
            ]
    ]

  abbrev assignment : Bytes × Bytes → Bytes
  assignment (k, v) = k ++ (codes "=" ++ v)

  -- `KVPut` with a token
  kv_put_as : Bytes → Bytes → Entries Bytes → Act m.World (Option Bytes)
  unfolding trim_space
  kv_put_as token path entries = do
    ended ← m.kubectl (
        (codes "exec"
          ∷ codes "-n"
          ∷ codes "vault"
          ∷ codes "vault-0"
          ∷ codes "--"
          ∷ codes "env"
          ∷ (codes "VAULT_TOKEN=" ++ token)
          ∷ codes "VAULT_ADDR=http://127.0.0.1:8200"
          ∷ codes "vault"
          ∷ codes "kv"
          ∷ codes "put"
          ∷ path
          ∷ [])
        ++ map assignment (m.ranged entries))
    elim ended [
      | printed _ ↦ pure none
      | broke stderr e ↦
          pure (some (codes "vault kv put " ++ wrapped path (wrapped (trim_space stderr) e)))
    ]

  unfoldable pub kv_put : Bytes → Entries Bytes → Act m.World (Option Bytes)
  unfolding read_root_token kv_put_as
  kv_put path [] = pure (some (codes "no data to write"))
  kv_put path (entry ∷ entries) = do
    token ← read_root_token
    elim token [
      | fault e ↦ pure (some (wrapped (codes "read vault root token") e))
      | fine t ↦ kv_put_as t path (entry ∷ entries)
    ]
