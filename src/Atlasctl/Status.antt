-- ===== src/Atlasctl/Status.antt =====
-- What the commands of tools/atlasctl/cmd/status.go and tools/atlasctl/cmd/list.go show, before it
-- is printed. The files, the program argocd and the reading of a manifest are parameters.
pub mod Complete
pub mod Whole
use atlas_idp.Common.{
  Bool, true, false, not, Option, none, some, List, [], ◌∷◌, ◌++◌, Bytes, codes, Act, ◌>>=◌, ◌>>◌,
  pure, if◌then◌else◌,
}
use atlas_idp.Text.{bytes_eq}
use atlas_idp.Atlasctl.Config.{spelled}
use atlas_idp.Atlasctl.Kube.{Outcome, fine, fault}
use atlas_idp.Atlasctl.Disk.{FilePath, child, Entry, Disk}
use atlas_idp.Atlasctl.Seed.Command.{parse_workload_arg}
use atlas_idp.Atlasctl.Gitops.{Places}
use atlas_idp.Atlasctl.Gitops.Listener.{has_listener_in_file}
use atlas_idp.Atlasctl.Enable.{is_found, is_missing}

pub record WorkloadItem : Type 0 where
  pub name : Bytes
  pub features : List Bytes
  pub enabled : Bool
  pub gateway_listener : Bool

pub record WorkloadStatus : Type 0 where
  pub name : Bytes
  pub namespace : Bytes
  pub features : List Bytes
  pub enabled : Bool
  pub gateway_listener : Bool
  pub argocd_sync : Option Bytes

-- a feature where it is there
abbrev feature_if : Bool → Bytes → List Bytes → List Bytes
feature_if true feature features = features ++ feature ∷ []
feature_if false feature features = features

abbrev or_none : List Bytes → List Bytes
or_none [] = codes "none" ∷ []
or_none (feature ∷ features) = feature ∷ features

module _ (d : Disk) where
  abbrev exists_at : FilePath → Act d.World Bool
  exists_at path = do there ← d.stat path; pure (is_found there)

  -- the second path is asked for only where the first is not there
  pub exists_either : FilePath → FilePath → Act d.World Bool
  exists_either first second = do
    there ← exists_at first
    if there then pure true else exists_at second

  pub detect_features : FilePath → Act d.World (List Bytes)
  unfolding child
  detect_features dir = do
    secrets ←
        exists_either (child dir (codes ".secret-seed"))
          (child (child dir (codes "vault")) (codes "policy.hcl"))
    gateway ←
        exists_either (child dir (codes "gateway.yaml"))
          (child (child dir (codes "infra")) (codes "gateway.yaml"))
    monitoring ← exists_at (child (child dir (codes "monitoring")) (codes "prometheus-rule.yaml"))
    pure (
        feature_if monitoring (codes "monitoring")
          (feature_if gateway (codes "gateway") (feature_if secrets (codes "secrets") [])))

  module _ (places : Places) where
    -- the body of the inner loop of `list`, for a directory
    pub list_app : Bytes → Bytes → Act d.World (Option WorkloadItem)
    list_app group app =
        let dir = child (child places.scaffold_dir group) app in
        do
          manifest ← d.stat (child dir (codes "app.yaml"))
          if is_missing manifest then pure none else do
            features ← detect_features dir
            enabled ← d.stat (child (child places.workloads_dir group) (app ++ codes ".yaml"))
            listener ← has_listener_in_file d places.gateway_file app
            pure (
                some (record {
                  name = group ++ (codes "/" ++ app);
                  features = or_none features;
                  enabled = is_found enabled;
                  gateway_listener = listener;
                }))

    abbrev pub appended : Option WorkloadItem → List WorkloadItem → List WorkloadItem
    appended none items = items
    appended (some item) items = item ∷ items

    -- the inner loop
    pub list_apps : Bytes → List Entry → Act d.World (List WorkloadItem)
    list_apps group [] = pure []
    list_apps group (e ∷ entries) = do
      item ← if e.is_dir then list_app group e.name else pure none
      items ← list_apps group entries
      pure (appended item items)

    -- the entries of a directory, those before the error where there is one
    pub entries_at : FilePath → Act d.World (List Entry)
    entries_at dir w =
        let (entries, w') = d.read_dir dir w in
        (elim entries [ fault _ ↦ d.read_before dir w | fine es ↦ es ], w')

    pub list_group : Entry → Act d.World (List WorkloadItem)
    list_group e =
        if e.is_dir
        then (do entries ← entries_at (child places.scaffold_dir e.name); list_apps e.name entries)
        else pure []

    -- the outer loop
    pub list_groups : List Entry → Act d.World (List WorkloadItem)
    list_groups [] = pure []
    list_groups (e ∷ entries) = do
      items ← list_group e
      more ← list_groups entries
      pure (items ++ more)

    pub list_workloads : Act d.World (List WorkloadItem)
    list_workloads = do
      there ← d.stat places.scaffold_dir
      if is_missing there
          then pure []
          else do entries ← entries_at places.scaffold_dir; list_groups entries

  -- `status`; `namespace_of` reads the destination's namespace from a manifest, empty where it
  -- cannot, and `sync_of` asks argocd
  module _ (places : Places) (namespace_of : Bytes → Bytes)
      (sync_of : Bytes → Act d.World (Option Bytes)) where
    unfoldable pub namespace_at : FilePath → Bytes → Act d.World Bytes
    unfolding bytes_eq
    namespace_at manifest default = do
      data_read ← d.read_file manifest
      elim data_read [
        | fault _ ↦ pure default
        | fine content ↦
            pure (if bytes_eq (namespace_of content) [] then default else namespace_of content)
      ]

    unfoldable pub status_of : Bytes → Bytes → Act d.World (Outcome WorkloadStatus)
    status_of group app =
        let dir = child (child places.scaffold_dir group) app in
        do
          there ← d.stat dir
          if is_missing there
              then pure (fault (codes "workload not found: " ++ spelled dir))
              else do
                namespace ←
                    namespace_at (child dir (codes "app.yaml")) (group ++ (codes "-" ++ app))
                features ← detect_features dir
                enabled ← d.stat (child (child places.workloads_dir group) (app ++ codes ".yaml"))
                listener ← has_listener_in_file d places.gateway_file app
                sync ← sync_of (group ++ (codes "-" ++ app))
                pure (
                    fine (record {
                      name = group ++ (codes "/" ++ app);
                      namespace = namespace;
                      features = or_none features;
                      enabled = is_found enabled;
                      gateway_listener = listener;
                      argocd_sync = sync;
                    }))

    unfoldable pub status_command : Bytes → Act d.World (Outcome WorkloadStatus)
    unfolding parse_workload_arg
    status_command arg = elim (parse_workload_arg arg) [
      | none ↦ pure (fault (codes "invalid format: use GROUP/APP"))
      | some (group, app) ↦ status_of group app
    ]
