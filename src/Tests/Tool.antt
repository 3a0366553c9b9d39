-- ===== src/Tests/Tool.antt =====
-- The theorems on tools/atlasctl at concrete configurations and files.
use atlas_idp.Common.{
  ◌≡◌, refl, Bool, true, false, none, some, List, [], ◌∷◌, ◌++◌, Bytes, codes, arith,
}
use atlas_idp.Text.{split, trim_right, has_prefix}
use atlas_idp.Atlasctl.Config.{Config, merge, load, resolve_paths}
use atlas_idp.Atlasctl.Kube.{fine}
use atlas_idp.Atlasctl.Config.Merge.{nothing, built_in, load-layers}
use atlas_idp.Atlasctl.Gateway.{
  append_listener, remove_listener, apply_gateway_listener, already_exists, marker, newline,
}
use atlas_idp.Atlasctl.Gateway.Listing.{listener_of, adding, apply_add-twice, apply_add-skips}
use atlas_idp.Atlasctl.Gateway.Removal.{remove-append}

-- the repository is /work/atlas, and the working directory /work/atlas/tools
abbrev has_makefile : List Bytes → Bool
has_makefile (name ∷ _ ∷ []) = true
has_makefile _ = false

abbrev root : List Bytes
root = codes "atlas" ∷ codes "work" ∷ []

abbrev cwd : List Bytes
cwd = codes "tools" ∷ root

abbrev over : Config
over = record nothing {
  templates = record { dir = codes "gold" };
  scaffold = record { dir = codes "/x" };
}

abbrev over' : Config
over' = record nothing { templates = record { dir = codes "silver" } }

load-layers_example :
    load has_makefile (some cwd) (fine over) (some over') none
    ≡ fine
        (resolve_paths has_makefile (some cwd) (merge built_in (merge over (merge over' nothing))))
load-layers_example = load-layers has_makefile (some cwd) over (some over') none

abbrev app : Bytes
app = codes "demo"

abbrev host : Bytes
host = codes "demo.atlas"

abbrev cert : Bytes
cert = codes "demo-tls"

abbrev gateway : Bytes
gateway = codes "spec:" ++ newline ∷ codes "  listeners:"

apply_add-twice_example :
    let content' = (apply_gateway_listener gateway (adding app host cert)).1 in
    apply_gateway_listener content' (adding app host cert) ≡ (already_exists, content')
apply_add-twice_example = apply_add-twice gateway app host cert

apply_add-skips_example :
    let content' = append_listener gateway (listener_of (app ++ codes "-two") host cert) in
    apply_gateway_listener content' (adding app host cert) ≡ (already_exists, content')
apply_add-skips_example = apply_add-skips gateway app (codes "-two") host cert host cert

remove-append_example :
    remove_listener (append_listener (gateway ++ newline ∷ []) (listener_of app host cert)) app
    ≡ some (gateway ++ newline ∷ [])
unfolding split trim_right marker has_prefix
remove-append_example =
    remove-append (codes "spec:" ++ newline ∷ codes "  listeners") 58 app host cert (λ e. cc) refl
      (λ e. cc, (λ e. cc, tt)) (omega arith) (omega arith) (omega arith) refl
