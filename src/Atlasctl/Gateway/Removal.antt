-- ===== src/Atlasctl/Gateway/Removal.antt =====
-- `RemoveListenerFromFile` after `AppendListenerToFile`.
use atlas_idp.Common.{
  ℕ, suc, ◌+◌, ◌<◌, ◌≡◌, ◌≢◌, refl, ap, ◌∙◌, false, List, [], ◌∷◌, ◌++◌, Bytes, codes, arith,
  append_assoc, append-nil, some, decimal, All, All-append, length, drop, take-length,
  get_or-length,
}
use native.Mathlib.Nat.{zero-add, suc-add}
use atlas_idp.Text.{trim_right, split, has_prefix}
use atlas_idp.Text.Laws.{
  split-append, split-join, join-split, bytes_eq_iff, trim_right-snoc, trim_suffix-snoc,
  trim_prefix_of_not,
}
use atlas_idp.Atlasctl.Gateway.{
  newline, is_newline, is_blank, marker, entry_lines, render_listener, count_indent, start_index,
  ends_entry, end_offset, append_listener, remove_listener, kept_lines,
}
use atlas_idp.Atlasctl.Gateway.Listing.{listener_of}

-- No line is the marker line of the application.
abbrev IsUnlisted : Bytes → List Bytes → Type 0
IsUnlisted app = All (λ line. trim_right is_blank line ≢ marker app)

start_index-append :
    (app : Bytes) (lines : List Bytes) (line : Bytes) (more : List Bytes)
    → IsUnlisted app lines
    → trim_right is_blank line ≡ marker app
    → start_index (marker app) (lines ++ line ∷ more) ≡ some (length lines)
unfolding start_index
start_index-append app [] line more _ same =
    rw (same, (bytes_eq_iff (marker app) (marker app)).1 refl)
start_index-append app (l ∷ lines) line more (ne, h) same = ground (
  arith,
  bytes_eq_iff (trim_right is_blank l) (marker app),
  start_index-append app lines line more h same,
)

-- a line with more than four blanks before something else ends no entry
inner_of_deep : (line : Bytes) → 4 < count_indent line → ends_entry 4 line ≡ false
unfolding ends_entry
inner_of_deep line h = ground arith

end_offset-All :
    (lines : List Bytes)
    → All (λ line. ends_entry 4 line ≡ false) lines
    → end_offset 4 (lines ++ [] ∷ []) ≡ suc (length lines)
unfolding end_offset
end_offset-All [] _ = refl
end_offset-All (l ∷ lines) (inner, h) = ground (arith, end_offset-All lines h)

-- the lines behind the marker line are inner lines
entry_lines-deep :
    (app hostname cert : Bytes)
    → All (λ line. 4 < count_indent line) (entry_lines (listener_of app hostname cert))
unfolding entry_lines decimal count_indent
entry_lines-deep app hostname cert = omega arith

All-inner :
    (lines : List Bytes)
    → All (λ line. 4 < count_indent line) lines
    → All (λ line. ends_entry 4 line ≡ false) lines
All-inner [] _ = tt
All-inner (l ∷ lines) (deep, h) = (inner_of_deep l deep, All-inner lines h)

abbrev Lacks : Bytes → Type 0
Lacks = All (λ c. c ≢ newline)

Lacks-append : (s t : Bytes) → Lacks s → Lacks t → Lacks (s ++ t)
Lacks-append = All-append (λ c. c ≢ newline)

abbrev first_line : Bytes → Bytes
first_line app = codes "    - name: " ++ (codes "https-" ++ app)

abbrev lines_of : Bytes → Bytes → Bytes → List Bytes
lines_of app hostname cert =
    first_line app ∷ (entry_lines (listener_of app hostname cert) ++ [] ∷ [])

-- the lines of the template from `allowedRoutes` to `certificateRefs`
abbrev middle_lines : List Bytes
middle_lines =
    codes "      allowedRoutes:"
    ∷ codes "        namespaces:"
    ∷ codes "          from: All"
    ∷ codes "      tls:"
    ∷ codes "        mode: Terminate"
    ∷ codes "        certificateRefs:"
    ∷ []

entry_lines-lack :
    (app hostname cert : Bytes)
    → Lacks hostname
    → Lacks cert
    → All Lacks (entry_lines (listener_of app hostname cert))
unfolding entry_lines decimal
entry_lines-lack app hostname cert h c =
    let host = Lacks-append hostname (codes "\"") h (omega arith) in
    let host_line =
      Lacks-append (codes "      hostname: \"") (hostname ++ codes "\"") (omega arith) host in
    let cert_line = Lacks-append (codes "          - name: ") cert (omega arith) c in
    let o : Lacks (codes "      protocol: HTTPS") = omega arith in
    let q : Lacks (codes "      port: " ++ codes (decimal 443)) = omega arith in
    let fixed : All Lacks middle_lines = omega arith in
    let last = codes "          - name: " ++ cert in
    (q, (o, (host_line, All-append Lacks middle_lines (last ∷ []) fixed (cert_line, tt))))

lines_of-lack :
    (app hostname cert : Bytes)
    → Lacks app
    → Lacks hostname
    → Lacks cert
    → All Lacks (lines_of app hostname cert)
lines_of-lack app hostname cert a h c = (
  Lacks-append (codes "    - name: ") (codes "https-" ++ app) (omega arith)
      (Lacks-append (codes "https-") app (omega arith) a),
  All-append Lacks (entry_lines (listener_of app hostname cert)) ([] ∷ [])
      (entry_lines-lack app hostname cert h c) (tt, tt),
)

split-rendered :
    (content app hostname cert : Bytes)
    → Lacks app
    → Lacks hostname
    → Lacks cert
    → split newline (append_listener content (listener_of app hostname cert))
      ≡ split newline (trim_right is_newline content) ++ lines_of app hostname cert
unfolding append_listener render_listener
split-rendered content app hostname cert a h c =
    split-append newline (trim_right is_newline content) _
    ∙ ap (λ (r : List Bytes). split newline (trim_right is_newline content) ++ r)
        (split-join newline (lines_of app hostname cert) (λ e. cc)
          (lines_of-lack app hostname cert a h c))

count_indent-first : (app : Bytes) → count_indent (first_line app) ≡ 4
unfolding count_indent
count_indent-first app = omega arith

drop-end : (es : List Bytes) → drop (suc (length es)) (es ++ [] ∷ []) ≡ []
drop-end [] = refl
drop-end (e ∷ es) = drop-end es

suc_length-drop :
    (lines : List Bytes) (l : Bytes) (more : List Bytes)
    → drop (suc (length lines)) (lines ++ l ∷ more) ≡ more
suc_length-drop [] l more = refl
suc_length-drop (x ∷ lines) l more = suc_length-drop lines l more

drop-past :
    (lines : List Bytes) (l : Bytes) (more : List Bytes) (n : ℕ)
    → drop (suc (length lines) + n) (lines ++ l ∷ more) ≡ drop n more
drop-past [] l more n = rw (suc-add, zero-add)
drop-past (x ∷ lines) l more n = rw suc-add (drop-past lines l more n)

-- the entry is cut out of the lines, to the last
kept_lines-append :
    (app hostname cert : Bytes) (lines : List Bytes)
    → IsUnlisted app lines
    → trim_right is_blank (marker app) ≡ marker app
    → kept_lines (marker app) (lines ++ lines_of app hostname cert) ≡ some lines
kept_lines-append app hostname cert lines unlisted trimmed =
    let es = entry_lines (listener_of app hostname cert) in
    let es' = es ++ [] ∷ [] in
    let found =
      start_index-append app lines (first_line app) es' unlisted (unfold marker in trimmed) in
    let passed = end_offset-All es (All-inner es (entry_lines-deep app hostname cert)) in
    unfold kept_lines in
    rw
      (
        kept_lines,
        found,
        get_or-length lines es' (first_line app) [],
        count_indent-first app,
        suc_length-drop lines (first_line app) es',
        passed,
        drop-past lines (first_line app) es' (suc (length es)),
        drop-end es,
        take-length lines,
      )
      (ap some (append-nil lines))

-- Removing the listener that was just added gives the file back, for a file that ends in one
-- newline and does not begin with one, in which no line is the marker line of the application,
-- where the names hold no newline and the marker line does not end in a blank.
pub remove-append :
    (text : Bytes) (z : ℕ) (app hostname cert : Bytes)
    → z ≢ newline
    → has_prefix (text ++ z ∷ []) (newline ∷ []) ≡ false
    → IsUnlisted app (split newline (text ++ z ∷ []))
    → Lacks app
    → Lacks hostname
    → Lacks cert
    → trim_right is_blank (marker app) ≡ marker app
    → remove_listener
        (append_listener ((text ++ z ∷ []) ++ newline ∷ []) (listener_of app hostname cert))
        app
      ≡ some ((text ++ z ∷ []) ++ newline ∷ [])
remove-append text z app hostname cert last first unlisted a h c trimmed =
    let body = text ++ z ∷ [] in
    let trims : trim_right is_newline (body ++ newline ∷ []) ≡ body = rw append_assoc (
      trim_right-snoc is_newline text z (newline ∷ []) (ground arith)
        (unfold trim_right in refl)) in
    unfold remove_listener in
    rw (
      remove_listener,
      split-rendered (body ++ newline ∷ []) app hostname cert a h c,
      trims,
      kept_lines-append app hostname cert (split newline body) unlisted trimmed,
      join-split newline body,
      trim_prefix_of_not body (newline ∷ []) first,
      trim_suffix-snoc text z newline last,
    )
