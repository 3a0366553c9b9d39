-- ===== src/Atlasctl/Seed/Command.antt =====
-- The command of tools/atlasctl/cmd/seed.go, and `parseWorkloadArg` of
-- tools/atlasctl/cmd/enable.go.
pub mod Guard
use atlas_idp.Common.{
  [], ◌++◌, Bool, false, ◌||◌, Option, none, some, Bytes, codes, Act, ◌>>=◌, pure, if◌then◌else◌,
}
use atlas_idp.Text.{bytes_eq, split_2, trim_space, to_lower}
use atlas_idp.Atlasctl.Kube.{Machine, wrapped, fine, fault}
use atlas_idp.Atlasctl.Seed.{Params, file_in, load_params, validate_params}
use atlas_idp.Atlasctl.Seed.Database.{provision_db}
use atlas_idp.Atlasctl.Seed.Storage.{provision_s3}
use atlas_idp.Atlasctl.Seed.Secrets.{write_vault}

-- what `atlasctl seed` is told: the flags and the answer to its question
pub record SeedFlags : Type 0 where
  pub force : Bool
  pub dry_run : Bool
  pub skip_confirm : Bool
  pub answer : Bytes

unfoldable pub agrees : Bytes → Bool
unfolding bytes_eq trim_space to_lower
agrees answer =
    let said = trim_space (to_lower answer) in
    bytes_eq said (codes "y") || bytes_eq said (codes "yes")

-- `parseWorkloadArg` of tools/atlasctl/cmd/enable.go, and the same in the command
unfoldable pub parse_workload_arg : Bytes → Option (Bytes × Bytes)
unfolding split_2 bytes_eq
parse_workload_arg arg = elim (split_2 47 arg) [
  | none ↦ none
  | some (group, app) ↦ if bytes_eq group [] || bytes_eq app [] then none else some (group, app)
]

module _ (m : Machine) where
  -- the three steps of the command
  pub provision : Params → Act m.World (Option Bytes)
  unfolding provision_db provision_s3 write_vault
  provision p = do
    e ← provision_db m p
    elim e [
      | some why ↦ pure (some (wrapped (codes "provision DB") why))
      | none ↦ do
        e' ← provision_s3 m p
        elim e' [
          | some why ↦ pure (some (wrapped (codes "provision S3") why))
          | none ↦ do
            e'' ← write_vault m p
            elim e'' [
              | some why ↦ pure (some (wrapped (codes "write vault") why))
              | none ↦ pure none
            ]
        ]
    ]

  -- the command from the parameters on
  pub seed_params : SeedFlags → Params → Act m.World (Option Bytes)
  unfolding provision validate_params agrees
  seed_params flags p =
      let refused = if flags.force then none else validate_params p in
      elim refused [
        | some e ↦ pure (some (wrapped (codes "validate params") e))
        | none ↦
            if flags.dry_run
            then pure none
            else if flags.skip_confirm || agrees flags.answer
            then provision p
            else pure (some (codes "aborted"))
      ]

  -- the whole command
  unfoldable pub seed_command : SeedFlags → Bytes → Bytes → Act m.World (Option Bytes)
  unfolding parse_workload_arg seed_params
  seed_command flags scaffold_dir arg = elim (parse_workload_arg arg) [
    | none ↦ pure (some (codes "invalid format: use GROUP/APP"))
    | some (group, app) ↦
        let dir = file_in (file_in scaffold_dir group) app in
        do
          gone ← if flags.force then pure false else m.absent dir
          if gone then pure (some (codes "workload not found: " ++ dir)) else do
            loaded ← load_params m (record { group = group; app = app; dir = dir })
            elim loaded [
              | fault e ↦ pure (some (wrapped (codes "load params") e))
              | fine p ↦ seed_params flags p
            ]
  ]
