-- ===== src/Atlasctl/Gitops/Listener.antt =====
-- `ApplyGatewayListener` of tools/atlasctl/pkg/gitops/gitops.go on the disk, with
-- `HasListenerInFile`, `AppendListenerToFile` and `RemoveListenerFromFile` of
-- tools/atlasctl/pkg/gateway/gateway.go.
pub mod Refine
use atlas_idp.Common.{
  ◌≡◌, ◌≢◌, refl, sym, ap, ◌∙◌, Bool, true, false, Option, none, some, List, [], ◌∷◌, ◌++◌, Bytes,
  codes, Act, ◌>>=◌, pure, if◌then◌else◌, arith, Bool-cases, Option-cases, inl, inr, some≢none,
}
use atlas_idp.Atlasctl.Config.{spelled}
use atlas_idp.Atlasctl.Gateway.{
  ListenerData, GatewayListenerChange, Applied, already_exists, added, not_found, removed,
  has_listener, append_listener, remove_listener, apply_gateway_listener,
}
use atlas_idp.Atlasctl.Kube.{Outcome, fine, fault, wrapped, Outcome-cases}
use atlas_idp.Atlasctl.Disk.{FilePath, Disk}
use atlas_idp.Atlasctl.Disk.Laws.{Tree, Node, file, folder, DiskLaws}

module _ (d : Disk) where
  -- a file that cannot be read has no listener
  unfoldable pub has_listener_in_file : FilePath → Bytes → Act d.World Bool
  has_listener_in_file path app = do
    data_read ← d.read_file path
    elim data_read [ fault _ ↦ pure false | fine content ↦ pure (has_listener content app) ]

  unfoldable pub append_listener_to_file : FilePath → ListenerData → Act d.World (Option Bytes)
  append_listener_to_file path listener = do
    data_read ← d.read_file path
    elim data_read [
      | fault e ↦ pure (some (wrapped (codes "read " ++ spelled path) e))
      | fine content ↦ d.write_file path (append_listener content listener)
    ]

  -- whether a listener was removed
  unfoldable pub remove_listener_from_file : FilePath → Bytes → Act d.World (Outcome Bool)
  remove_listener_from_file path app = do
    data_read ← d.read_file path
    elim data_read [
      | fault e ↦ pure (fault (wrapped (codes "read " ++ spelled path) e))
      | fine content ↦ elim (remove_listener content app) [
        | none ↦ pure (fine false)
        | some content' ↦ do
          written ← d.write_file path content'
          elim written [ some e ↦ pure (fault e) | none ↦ pure (fine true) ]
      ]
    ]

  abbrev pub listener_data : GatewayListenerChange → ListenerData
  listener_data change = record {
    name = codes "https-" ++ change.app;
    port = 443;
    hostname = change.hostname;
    cert_name = change.cert_name;
  }

  unfoldable pub add_listener : FilePath → GatewayListenerChange → Act d.World (Outcome Applied)
  add_listener path change = do
    there ← has_listener_in_file path change.app
    if there then pure (fine already_exists) else do
      failure ← append_listener_to_file path (listener_data change)
      elim failure [ some e ↦ pure (fault e) | none ↦ pure (fine added) ]

  unfoldable pub drop_listener : FilePath → GatewayListenerChange → Act d.World (Outcome Applied)
  drop_listener path change = do
    gone ← remove_listener_from_file path change.app
    elim gone [
      | fault e ↦ pure (fault (wrapped (codes "remove gateway listener") e))
      | fine true ↦ pure (fine removed)
      | fine false ↦ pure (fine not_found)
    ]

  -- `ApplyGatewayListener`
  unfoldable pub apply_listener : FilePath → GatewayListenerChange → Act d.World (Outcome Applied)
  apply_listener path change =
      if change.add then add_listener path change else drop_listener path change
