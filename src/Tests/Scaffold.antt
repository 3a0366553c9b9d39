-- ===== src/Tests/Scaffold.antt =====
-- The theorem on the command new, on the disk in memory.
use atlas_idp.Common.{◌≡◌, ◌≢◌, ◌⊎◌, refl, false, none, [], ◌∷◌, Bytes, codes, pure}
use atlas_idp.Atlasctl.Kube.{fine}
use atlas_idp.Atlasctl.Disk.Laws.{Tree}
use atlas_idp.Atlasctl.Gitops.Walk.{Frame}
use atlas_idp.Atlasctl.Template.{Generators}
use atlas_idp.Atlasctl.New.{NewFlags, TemplateFile, Setting}
use atlas_idp.Atlasctl.New.Frame.{workload_dir, created, new_workload-keeps}
use atlas_idp.Tests.Files.{disk, tree}
use atlas_idp.Tests.Files.Behaviour.{disk-Laws, is_plain-IsPlain}
use atlas_idp.Tests.Workloads.{shop}
use atlas_idp.Text.{trim_suffix, bytes_eq}
use atlas_idp.Tests.Lifecycle.{team}

abbrev repo : Bytes
repo = codes "https://forge/team/app.git"

abbrev asked : NewFlags
asked = record {
  group = team;
  repo_url = repo;
  namespace = [];
  repo_path = codes ".";
  helm = false;
  helm_values = [];
  sa = [];
  skip_confirm = false;
  answer = codes "y";
}

abbrev app_template : TemplateFile
app_template = record { path = codes "app.yaml.tmpl" ∷ []; content = fine (codes "name: {{APP}}") }

abbrev route_template : TemplateFile
route_template = record {
  path = codes "route.yaml.tmpl" ∷ codes "infra" ∷ [];
  content = fine (codes "host: {{HOSTNAME}}");
}

abbrev setting : Setting
setting = record {
  scaffold_dir = codes "workloads" ∷ codes "repo" ∷ [];
  templates = app_template ∷ route_template ∷ [];
  defaults_config = record {
    repo_path = codes ".";
    gateway_port = codes "8080";
    chart_revision = codes "HEAD";
    target_revision = codes "HEAD";
    hostname_pattern = codes "{{APP}}.atlas";
  };
  keys =
      record {
        name = codes "password";
        env_key = codes "DB_PASSWORD";
        generator = codes "hex";
        length = 2;
      }
      ∷ [];
  ranged = λ entries. entries;
}

abbrev generators : Generators Tree
generators = record {
  random = λ size. pure (fine (codes "some random bytes"));
  base64 = λ bytes. bytes;
  hex = λ bytes. bytes;
}

abbrev newcomer : Bytes
newcomer = codes "blog"

new_workload-keeps_example :
    ((tree shop (workload_dir disk disk-Laws setting generators (λ size w. refl) [] asked newcomer)
        ≢ none)
      × ((created disk disk-Laws setting generators (λ size w. refl) [] asked newcomer shop).0
          ≢ none)
      × (tree (created disk disk-Laws setting generators (λ size w. refl) [] asked newcomer shop).1
          ≡ tree shop))
    ⊎ ((tree shop
            (workload_dir disk disk-Laws setting generators (λ size w. refl) [] asked newcomer)
          ≡ none)
        × Frame
            (workload_dir disk disk-Laws setting generators (λ size w. refl) [] asked newcomer)
            (tree shop)
            (tree
              (created disk disk-Laws setting generators
                (λ size w. refl)
                []
                asked
                newcomer
                shop).1))
unfolding disk-Laws trim_suffix bytes_eq
new_workload-keeps_example =
    new_workload-keeps disk disk-Laws setting generators (λ size w. refl) [] asked newcomer shop
      (is_plain-IsPlain (codes "app.yaml") refl, (is_plain-IsPlain (codes "route.yaml") refl, tt))
