-- ===== src/Atlasctl/New.antt =====
-- The command of tools/atlasctl/cmd/new.go. What is printed is left out; the files, the templates
-- and random bytes are parameters, and random bytes act on the world of the files. A template's
-- path has its components innermost first, and is clean as package fs demands.
mod Render
pub mod Frame
use atlas_idp.Common.{
  ℕ, Bool, true, false, not, ◌&&◌, ◌||◌, Option, none, some, List, [], ◌∷◌, ◌++◌, map, Bytes, codes,
  Act, ◌>>=◌, ◌>>◌, pure, if◌then◌else◌,
}
use mathlib.Core.List.{reverse}
use atlas_idp.Text.{bytes_eq, split, join, replace, to_upper, has_suffix, trim_suffix}
use atlas_idp.Atlasctl.Config.{DefaultsConfig, SeedKey, or_default, parent, spelled}
use atlas_idp.Atlasctl.Kube.{Outcome, fine, fault, wrapped, Entries}
use atlas_idp.Atlasctl.Disk.{FilePath, child, Stat, found, not_exist, unknown, Disk}
use atlas_idp.Atlasctl.Template.{Vars, Generators, render, generate_seed, secret_seed_env}
use atlas_idp.Atlasctl.Seed.Command.{agrees}

pub record NewFlags : Type 0 where
  pub group : Bytes
  pub repo_url : Bytes
  pub namespace : Bytes
  pub repo_path : Bytes
  pub helm : Bool
  pub helm_values : Bytes
  pub sa : Bytes
  pub skip_confirm : Bool
  pub answer : Bytes

-- A file that fs.WalkDir meets, and what fs.ReadFile gives of it.
pub record TemplateFile : Type 0 where
  pub path : FilePath
  pub content : Outcome Bytes

pub record Setting : Type 0 where
  pub scaffold_dir : FilePath
  pub templates : List TemplateFile
  pub defaults_config : DefaultsConfig
  pub keys : List SeedKey
  -- the orders in which loops meet the entries of maps
  pub ranged : List (Bytes × Bytes) → List (Bytes × Bytes)

-- `indentLines`
indent_lines : Bytes → Bytes → Bytes
unfolding split join bytes_eq
indent_lines s indent =
    join 10 (map (λ line. if bytes_eq line [] then [] else indent ++ line) (split 10 s))

abbrev upper_case : Bytes → Bytes
upper_case name = to_upper (replace 45 95 name)

-- the variables of the templates
unfoldable pub vars_of : NewFlags → Bytes → Vars
unfolding indent_lines
vars_of flags app =
    let given = flags.helm && not (bytes_eq flags.helm_values []) in
    record {
      app = app;
      app_uc = upper_case app;
      group = flags.group;
      group_uc = upper_case flags.group;
      namespace = or_default flags.namespace (flags.group ++ (codes "-" ++ app));
      repo_url = flags.repo_url;
      repo_path = flags.repo_path;
      hostname = app ++ codes ".atlas";
      gateway_port = [];
      chart_repo = [];
      chart_revision = [];
      chart_path = [];
      target_revision = [];
      service_accounts = or_default flags.sa app;
      helm_values_indented =
          if given then indent_lines flags.helm_values (codes "        ") else [];
      gitops_helm_values =
          if given then indent_lines flags.helm_values (codes "          ") else [];
    }

-- where the file that a template gives is written, none where its name does not end in .tmpl
pub target_of : FilePath → FilePath → Option FilePath
unfolding has_suffix trim_suffix
target_of workload_dir [] = none
target_of workload_dir (name ∷ dir) =
    if has_suffix name (codes ".tmpl")
    then some (child (dir ++ workload_dir) (trim_suffix name (codes ".tmpl")))
    else none

module _ (d : Disk) (s : Setting) where
  -- what `renderAllTemplates` does with a template, given where it is written
  pub write_one : Vars → TemplateFile → FilePath → Act d.World (Option Bytes)
  unfolding spelled
  write_one v t dst = do
    made ← d.mkdir_all (parent dst)
    elim made [
      | some e ↦ pure (some (wrapped (codes "mkdir " ++ spelled (parent dst)) e))
      | none ↦ elim t.content [
        | fault e ↦ pure (
            some (
              wrapped (codes "render " ++ join 47 (reverse t.path))
                (wrapped (codes "read template " ++ join 47 (reverse t.path)) e)))
        | fine content ↦ do
          written ← d.write_file dst (render s.ranged content v s.defaults_config)
          elim written [
            | some e ↦ pure (some (wrapped (codes "write " ++ spelled dst) e))
            | none ↦ pure none
          ]
      ]
    ]

  -- one file of `renderAllTemplates`
  pub render_one : FilePath → Vars → TemplateFile → Act d.World (Option Bytes)
  unfolding target_of
  render_one workload_dir v t = elim (target_of workload_dir t.path) [
    | none ↦ pure none
    | some dst ↦ write_one v t dst
  ]

  pub render_all_templates : FilePath → Vars → List TemplateFile → Act d.World (Option Bytes)
  render_all_templates workload_dir v [] = pure none
  render_all_templates workload_dir v (t ∷ templates) = do
    failure ← render_one workload_dir v t
    elim failure [ some e ↦ pure (some e) | none ↦ render_all_templates workload_dir v templates ]

  module _ (g : Generators d.World) where
    -- the generated secrets
    pub write_seed : FilePath → Vars → Act d.World (Option Bytes)
    write_seed workload_dir v = do
      generated ← generate_seed g s.keys
      elim generated [
        | fault e ↦ pure (some (wrapped (codes "generate seed") e))
        | fine secrets ↦ do
          written ←
              d.write_file (child workload_dir (codes ".secret-seed"))
                (secret_seed_env v.group_uc v.app_uc (s.ranged secrets))
          elim written [
            | some e ↦ pure (some (wrapped (codes "write .secret-seed") e))
            | none ↦ pure none
          ]
      ]

    -- behind the question
    pub scaffold : FilePath → Vars → Act d.World (Option Bytes)
    scaffold workload_dir v = do
      made ← d.mkdir_all workload_dir
      elim made [
        | some e ↦ pure (some (wrapped (codes "mkdir " ++ spelled workload_dir) e))
        | none ↦ do
          rendered ← render_all_templates workload_dir v s.templates
          elim rendered [ some e ↦ pure (some e) | none ↦ write_seed workload_dir v ]
      ]

    -- `unclear` is the text of an error of os.Stat that is not os.IsNotExist
    pub new_workload : Bytes → NewFlags → Bytes → Act d.World (Option Bytes)
    unfolding agrees
    new_workload unclear flags app =
        let dir = child (child s.scaffold_dir flags.group) app in
        if bytes_eq flags.group []
        then pure (some (codes "--group is required"))
        else if bytes_eq flags.repo_url []
        then pure (some (codes "--repo is required"))
        else do
          there ← d.stat dir
          elim there [
            | found ↦ pure (some (wrapped (codes "workload already exists") (spelled dir)))
            | unknown ↦ pure (some (wrapped (codes "stat " ++ spelled dir) unclear))
            | not_exist ↦
                if flags.skip_confirm || agrees flags.answer
                then scaffold dir (vars_of flags app)
                else pure (some (codes "aborted"))
          ]
