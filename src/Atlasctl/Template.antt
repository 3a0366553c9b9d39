-- ===== src/Atlasctl/Template.antt =====
-- tools/atlasctl/pkg/template: `SecretSeedEnv`, `GenerateSeed` of seed.go and `Defaults` and
-- `Render` of template.go. Random bytes and the order in which Go ranges over a map are parameters.
use atlas_idp.Text.{ended, replace_all, bytes_eq}
use atlas_idp.Atlasctl.Config.{DefaultsConfig, SeedKey, or_default}
use atlas_idp.Atlasctl.Kube.{Outcome, fine, fault, wrapped, Entries, insert}
use atlas_idp.Common.{ℕ, Act, ◌>>=◌, pure, if◌then◌else◌, List, [], ◌∷◌, ◌++◌, map, Bytes, codes}

unfoldable pub header_lines : Bytes → Bytes → List Bytes
header_lines group_uc app_uc =
    (codes "# "
      ++ (group_uc ++ (codes "/" ++ (app_uc ++ codes " - atlasctl seed environment file"))))
    ∷ codes "# Auto-generated by atlasctl new. Edit values before running atlasctl seed."
    ∷ codes "#"
    ∷ codes "# Format: KEY=value"
    ∷ []

unfoldable pub secret_line : Bytes → Bytes → Bytes × Bytes → Bytes
secret_line group_uc app_uc (k, v) =
    codes "VL_" ++ (group_uc ++ (codes "_" ++ (app_uc ++ (codes "_" ++ (k ++ (codes "=" ++ v))))))

-- `secrets` are the entries of the map in the order in which the loop meets them
unfoldable pub secret_seed_env : Bytes → Bytes → List (Bytes × Bytes) → Bytes
secret_seed_env group_uc app_uc secrets =
    ended (header_lines group_uc app_uc ++ map (secret_line group_uc app_uc) secrets)

pub record Vars : Type 0 where
  pub app : Bytes
  pub app_uc : Bytes
  pub group : Bytes
  pub group_uc : Bytes
  pub namespace : Bytes
  pub repo_url : Bytes
  pub repo_path : Bytes
  pub hostname : Bytes
  pub gateway_port : Bytes
  pub chart_repo : Bytes
  pub chart_revision : Bytes
  pub chart_path : Bytes
  pub target_revision : Bytes
  pub service_accounts : Bytes
  pub helm_values_indented : Bytes
  pub gitops_helm_values : Bytes

-- `Defaults`
pub defaults : Vars → DefaultsConfig → Vars
unfolding replace_all
defaults v cfg = record v {
  repo_path = or_default v.repo_path cfg.repo_path;
  gateway_port = or_default v.gateway_port cfg.gateway_port;
  chart_repo = or_default v.chart_repo v.repo_url;
  chart_revision = or_default v.chart_revision cfg.chart_revision;
  target_revision = or_default v.target_revision cfg.target_revision;
  hostname = or_default v.hostname (replace_all (codes "{{APP}}") v.app cfg.hostname_pattern);
}

-- the entries of the map in `Render`
replacements : Vars → List (Bytes × Bytes)
replacements v =
    (codes "{{APP}}", v.app)
    ∷ (codes "{{APP_UC}}", v.app_uc)
    ∷ (codes "{{GROUP}}", v.group)
    ∷ (codes "{{GROUP_UC}}", v.group_uc)
    ∷ (codes "{{NAMESPACE}}", v.namespace)
    ∷ (codes "{{REPO_URL}}", v.repo_url)
    ∷ (codes "{{REPO_PATH}}", v.repo_path)
    ∷ (codes "{{HOSTNAME}}", v.hostname)
    ∷ (codes "{{GATEWAY_PORT}}", v.gateway_port)
    ∷ (codes "{{CHART_REPO}}", v.chart_repo)
    ∷ (codes "{{CHART_REVISION}}", v.chart_revision)
    ∷ (codes "{{CHART_PATH}}", v.chart_path)
    ∷ (codes "{{TARGET_REVISION}}", v.target_revision)
    ∷ (codes "{{SERVICE_ACCOUNTS}}", v.service_accounts)
    ∷ (codes "{{REPO_HELM_SETTINGS}}", v.helm_values_indented)
    ∷ (codes "{{GITOPS_HELM_SETTINGS}}", v.gitops_helm_values)
    ∷ []

-- the loop of `Render`
replace_each : List (Bytes × Bytes) → Bytes → Bytes
unfolding replace_all
replace_each [] content = content
replace_each ((k, val) ∷ more) content = replace_each more (replace_all k val content)

-- `Render`; `ranged` is the order in which the loop meets the entries
unfoldable pub render :
    (List (Bytes × Bytes) → List (Bytes × Bytes)) → Bytes → Vars → DefaultsConfig → Bytes
unfolding replace_each replacements defaults
render ranged content v cfg = replace_each (ranged (replacements (defaults v cfg))) content

-- What `GenerateSeed` calls: so many random bytes, and the two encodings.
pub record Generators (World : Type 0) : Type 0 where
  pub random : ℕ → Act World (Outcome Bytes)
  pub base64 : Bytes → Bytes
  pub hex : Bytes → Bytes

module _ {World : Type 0} (g : Generators World) where
  unfoldable pub encoded : (Bytes → Bytes) → ℕ → Act World (Outcome Bytes)
  encoded encoding size = do
    drawn ← g.random size
    elim drawn [ fault e ↦ pure (fault e) | fine bytes ↦ pure (fine (encoding bytes)) ]

  unfoldable pub generate_value : Bytes → ℕ → Act World (Outcome Bytes)
  unfolding bytes_eq encoded
  generate_value generator size =
      if bytes_eq generator (codes "base64")
      then encoded g.base64 size
      else if bytes_eq generator (codes "hex")
      then encoded g.hex size
      else pure (fault (codes "unknown generator: " ++ generator))

  -- the loop of `GenerateSeed` with the entries that it has
  unfoldable pub generate_from : List SeedKey → Entries Bytes → Act World (Outcome (Entries Bytes))
  unfolding insert
  generate_from [] entries = pure (fine entries)
  generate_from (k ∷ keys) entries = do
    value ← generate_value k.generator k.length
    elim value [
      | fault e ↦ pure (fault (wrapped k.name e))
      | fine text ↦ generate_from keys (insert k.env_key text entries)
    ]

  unfoldable pub generate_seed : List SeedKey → Act World (Outcome (Entries Bytes))
  generate_seed keys = generate_from keys []
