-- ===== src/Atlasctl/Gateway/Listing.antt =====
-- `HasListenerInFile` after `AppendListenerToFile`, and adding a listener twice.
use atlas_idp.Common.{
  ◌≡◌, refl, true, [], ◌∷◌, ◌++◌, Bytes, codes, append_assoc, append-nil, Bool-cases, inl, inr,
}
use atlas_idp.Text.{trim_right, join}
use atlas_idp.Text.Laws.{contains-middle}
use atlas_idp.Atlasctl.Gateway.{
  ListenerData, GatewayListenerChange, newline, is_newline, marker, entry_lines, render_listener,
  has_listener, append_listener, apply_gateway_listener, already_exists,
}

abbrev pub listener_of : Bytes → Bytes → Bytes → ListenerData
listener_of app hostname cert = record {
  name = codes "https-" ++ app;
  port = 443;
  hostname = hostname;
  cert_name = cert;
}

behind : ListenerData → Bytes
unfolding entry_lines join
behind d = newline ∷ join newline (entry_lines d ++ [] ∷ [])

-- the rendered entry is its marker line and the rest
render-marker :
    (app hostname cert : Bytes)
    → render_listener (listener_of app hostname cert)
      ≡ marker app ++ behind (listener_of app hostname cert)
unfolding render_listener marker behind
render-marker app hostname cert = refl

marker-append :
    (app more rest : Bytes) → marker (app ++ more) ++ rest ≡ marker app ++ (more ++ rest)
unfolding marker
marker-append app more rest = simp append_assoc

-- A listener that was added for an application counts as the listener of every application whose
-- name is a beginning of its name, itself included.
has_listener-append :
    (content app more hostname cert : Bytes)
    → has_listener (append_listener content (listener_of (app ++ more) hostname cert)) app ≡ true
has_listener-append content app more hostname cert =
    let d = listener_of (app ++ more) hostname cert in
    let head = trim_right is_newline content ++ newline ∷ [] in
    let shape : append_listener content d ≡ head ++ (marker app ++ (more ++ behind d)) =
      unfold append_listener in rw (render-marker, marker-append, append_assoc) in
    unfold has_listener in rw shape (contains-middle head (marker app) (more ++ behind d))

abbrev pub adding : Bytes → Bytes → Bytes → GatewayListenerChange
adding app hostname cert = record { app = app; hostname = hostname; cert_name = cert; add = true }

has_listener-append_self :
    (content app hostname cert : Bytes)
    → has_listener (append_listener content (listener_of app hostname cert)) app ≡ true
has_listener-append_self content app hostname cert =
    rw append-nil at (has_listener-append content app [] hostname cert)

-- Adding a listener a second time reports that it is there and leaves the file as the first time
-- left it, whether the first added it or found it.
pub apply_add-twice :
    (content app hostname cert : Bytes)
    → let content' = (apply_gateway_listener content (adding app hostname cert)).1 in
      apply_gateway_listener content' (adding app hostname cert) ≡ (already_exists, content')
unfolding apply_gateway_listener
apply_add-twice content app hostname cert = elim (Bool-cases (has_listener content app)) [
  | inl there ↦ rw (apply_gateway_listener, there) (rw there)
  | inr gone ↦
      rw (apply_gateway_listener, gone) (rw (has_listener-append_self content app hostname cert))
]

-- The listener of an application is not added to a file to which that of an application whose name
-- begins with its name was added just before: the file stays as it is, and the report says that the
-- listener is there.
pub apply_add-skips :
    (content app more hostname cert hostname' cert' : Bytes)
    → let content' = append_listener content (listener_of (app ++ more) hostname cert) in
      apply_gateway_listener content' (adding app hostname' cert') ≡ (already_exists, content')
unfolding apply_gateway_listener
apply_add-skips content app more hostname cert hostname' cert' =
    rw (has_listener-append content app more hostname cert)
