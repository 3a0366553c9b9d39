-- ===== src/Atlasctl/Seed/Command/Guard.antt =====
-- When the command of tools/atlasctl/cmd/seed.go acts.
use atlas_idp.Common.{Bool, not, ◌&&◌, ◌||◌, []}
use atlas_idp.Text.{bytes_eq}
use atlas_idp.Atlasctl.Seed.{Params}
use atlas_idp.Atlasctl.Seed.Command.{SeedFlags, agrees}

-- All four secrets are given.
abbrev pub complete : Params → Bool
unfolding bytes_eq
complete p =
    not (bytes_eq p.db_password [])
    && not (bytes_eq p.s3_access_key [])
    && not (bytes_eq p.s3_secret_key [])
    && not (bytes_eq p.redis_pass [])

abbrev pub allowed : SeedFlags → Params → Bool
allowed flags p =
    (flags.force || complete p) && not flags.dry_run && (flags.skip_confirm || agrees flags.answer)
