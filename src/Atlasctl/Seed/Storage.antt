-- ===== src/Atlasctl/Seed/Storage.antt =====
-- `ProvisionS3` of tools/atlasctl/pkg/seed/seed.go.
use atlas_idp.Common.{
  Bool, not, ◌&&◌, Option, none, List, [], ◌∷◌, ◌++◌, Bytes, codes, Act, ◌>>=◌, ◌>>◌, pure,
  if◌then◌else◌,
}
use atlas_idp.Text.{bytes_eq, contains}
use atlas_idp.Atlasctl.Kube.{
  Outcome, fine, fault, Machine, pod_exec, secret_read_decoded, get_pod_name,
}
use atlas_idp.Atlasctl.Seed.{Params, attempt, bucket_of}

-- what the answer of `mc stat` says
bucket_there : Bytes → Bool
unfolding bytes_eq contains
bucket_there text = not (bytes_eq text []) && not (contains text (codes "does not exist"))

-- the output, where the error is thrown away
abbrev pub output : Outcome Bytes → Bytes
output (fine text) = text
output (fault _) = []

minio_pod : Outcome Bytes → Bytes
unfolding bytes_eq
minio_pod (fault _) = codes "minio-0"
minio_pod (fine name) = if bytes_eq name [] then codes "minio-0" else name

module _ (m : Machine) where
  abbrev mc : Bytes → List Bytes → Act m.World (Outcome Bytes)
  mc pod args = pod_exec m (codes "minio") pod (codes "mc" ∷ args)

  -- the user is removed where the list of users has its name
  remove_user : Bytes → Bytes → Bytes → Act m.World (Outcome Bytes)
  unfolding contains
  remove_user pod access_key users =
      if contains users access_key
      then mc pod
          (codes "admin" ∷ codes "user" ∷ codes "remove" ∷ codes "atlas-seed" ∷ access_key ∷ [])
      else pure (fine [])

  -- `ProvisionS3` from the list of users on
  provision_s3_user : Bytes → Params → Act m.World (Option Bytes)
  unfolding attempt remove_user
  provision_s3_user pod p = do
    users ← mc pod (codes "admin" ∷ codes "user" ∷ codes "list" ∷ codes "atlas-seed" ∷ [])
    remove_user pod p.s3_access_key (output users)
    attempt m (codes "create minio user")
        (mc pod (
          codes "admin"
          ∷ codes "user"
          ∷ codes "add"
          ∷ codes "atlas-seed"
          ∷ p.s3_access_key
          ∷ p.s3_secret_key
          ∷ []))
        λ _. do
          mc pod (
              codes "admin"
              ∷ codes "policy"
              ∷ codes "attach"
              ∷ codes "atlas-seed"
              ∷ codes "readwrite"
              ∷ codes "--user"
              ∷ p.s3_access_key
              ∷ [])
          pure none

  -- `ProvisionS3` from the bucket on
  provision_bucket : Bytes → Bytes → Params → Act m.World (Option Bytes)
  unfolding attempt bucket_there provision_s3_user
  provision_bucket pod bucket p = do
    checked ← mc pod (codes "stat" ∷ (codes "atlas-seed/" ++ bucket) ∷ [])
    if bucket_there (output checked)
        then provision_s3_user pod p
        else attempt m (codes "create bucket")
            (mc pod (codes "mb" ∷ (codes "atlas-seed/" ++ bucket) ∷ []))
            (λ _. provision_s3_user pod p)

  unfoldable pub provision_s3 : Params → Act m.World (Option Bytes)
  unfolding attempt minio_pod bucket_of provision_bucket
  provision_s3 p = do
    found ← get_pod_name m (codes "minio") (codes "app=minio")
    attempt m (codes "read minio root user")
        (secret_read_decoded m (codes "minio") (codes "minio-auth") (codes "rootUser"))
        λ user.
          attempt m (codes "read minio root password")
            (secret_read_decoded m (codes "minio") (codes "minio-auth") (codes "rootPassword"))
            λ password. do
              mc (minio_pod found) (
                  codes "alias"
                  ∷ codes "set"
                  ∷ codes "atlas-seed"
                  ∷ codes "http://localhost:9000"
                  ∷ user
                  ∷ password
                  ∷ [])
              provision_bucket (minio_pod found) (bucket_of p.workload) p
