-- ===== src/Atlasctl/Gateway.antt =====
-- tools/atlasctl/pkg/gateway/gateway.go with its template listener.tmpl, and
-- `ApplyGatewayListener` of tools/atlasctl/pkg/gitops/gitops.go, on the content of the gateway file.
pub mod Removal
pub mod Listing
use atlas_idp.Common.{
  ℕ, zero, suc, ◌-◌, ◌+◌, Bool, true, false, ◌&&◌, ◌||◌, not, Option, none, some, List, [], ◌∷◌,
  ◌++◌, Bytes, codes, length, leb, ltb, ◌==◌, if◌then◌else◌, take, drop, get_or, decimal,
}
use atlas_idp.Text.{
  bytes_eq, has_prefix, trim_prefix, trim_suffix, contains, trim_left, trim_right, trim_space,
  split, join,
}

pub record ListenerData : Type 0 where
  pub name : Bytes
  pub port : ℕ
  pub hostname : Bytes
  pub cert_name : Bytes

abbrev pub newline : ℕ
newline = 10

abbrev pub is_blank : ℕ → Bool
is_blank c = c == 32

abbrev pub is_newline : ℕ → Bool
is_newline c = c == 10

-- `RenderListener`: the template's eleven lines, each ended by a newline.
pub entry_lines : ListenerData → List Bytes
entry_lines d =
    (codes "      port: " ++ codes (decimal d.port))
    ∷ codes "      protocol: HTTPS"
    ∷ (codes "      hostname: \"" ++ (d.hostname ++ codes "\""))
    ∷ codes "      allowedRoutes:"
    ∷ codes "        namespaces:"
    ∷ codes "          from: All"
    ∷ codes "      tls:"
    ∷ codes "        mode: Terminate"
    ∷ codes "        certificateRefs:"
    ∷ (codes "          - name: " ++ d.cert_name)
    ∷ []

pub render_listener : ListenerData → Bytes
unfolding entry_lines join
render_listener d = join newline ((codes "    - name: " ++ d.name) ∷ (entry_lines d ++ [] ∷ []))

unfoldable pub marker : Bytes → Bytes
marker app = codes "    - name: https-" ++ app

-- `HasListenerInFile`, of a file that can be read
unfoldable pub has_listener : Bytes → Bytes → Bool
unfolding contains marker
has_listener content app = contains content (marker app)

-- `AppendListenerToFile`: the new content
pub append_listener : Bytes → ListenerData → Bytes
unfolding trim_right render_listener
append_listener existing d = trim_right is_newline existing ++ newline ∷ render_listener d

pub count_indent : Bytes → ℕ
unfolding trim_left
count_indent line = length line - length (trim_left is_blank line)

-- the loop for `startIdx`, from a line on
unfoldable pub start_index : Bytes → List Bytes → Option ℕ
unfolding trim_right bytes_eq
start_index mark [] = none
start_index mark (line ∷ lines) =
    if bytes_eq (trim_right is_blank line) mark
    then some 0
    else elim (start_index mark lines) [ none ↦ none | some i ↦ some (suc i) ]

-- the three tests that end the loop for `endIdx`
pub ends_entry : ℕ → Bytes → Bool
unfolding count_indent has_prefix trim_space
ends_entry indent line =
    (leb (count_indent line) indent && has_prefix (trim_space line) (codes "-"))
    || (leb (count_indent line) indent && ltb 0 (count_indent line))
    || (count_indent line == 0 && not (bytes_eq (trim_space line) []))

-- how many of the lines behind `startIdx` the loop for `endIdx` passes over
pub end_offset : ℕ → List Bytes → ℕ
unfolding trim_space bytes_eq ends_entry
end_offset indent [] = 0
end_offset indent (line ∷ lines) =
    let more = suc (end_offset indent lines) in
    if bytes_eq (trim_space line) [] then more else if ends_entry indent line then 0 else more

-- the lines that `RemoveListenerFromFile` keeps, or none where there is no such listener
unfoldable pub kept_lines : Bytes → List Bytes → Option (List Bytes)
unfolding start_index end_offset count_indent
kept_lines mark lines = elim (start_index mark lines) [
  | none ↦ none
  | some start ↦
      let indent = count_indent (get_or lines start []) in
      let end = suc start + end_offset indent (drop (suc start) lines) in
      some (take start lines ++ drop end lines)
]

-- `RemoveListenerFromFile`: the new content, or none where there is no such listener
unfoldable pub remove_listener : Bytes → Bytes → Option Bytes
remove_listener content app = elim (kept_lines (marker app) (split newline content)) [
  | none ↦ none
  | some lines ↦
      let output = join newline lines in
      some (trim_suffix (trim_prefix output (newline ∷ [])) (newline ∷ []) ++ newline ∷ [])
]

pub record GatewayListenerChange : Type 0 where
  pub app : Bytes
  pub hostname : Bytes
  pub cert_name : Bytes
  pub add : Bool

-- What `ApplyGatewayListener` reports.
pub data Applied : Type 0 where
  already_exists added not_found removed : Applied

-- `ApplyGatewayListener` on a file that can be read and written: the report and the new content
unfoldable pub apply_gateway_listener : Bytes → GatewayListenerChange → Applied × Bytes
apply_gateway_listener content change =
    if change.add
    then (if has_listener content change.app then (already_exists, content) else (
      added,
      append_listener content (record {
        name = codes "https-" ++ change.app;
        port = 443;
        hostname = change.hostname;
        cert_name = change.cert_name;
      }),
    ))
    else (elim (remove_listener content change.app) [
      | none ↦ (not_found, content)
      | some content' ↦ (removed, content')
    ])
