-- ===== src/Seal/Ui/Pages.antt =====
-- Which answer of the API stands behind a page of
-- apps/seal/seal-ui/internal/handlers/document.go.
use Prim.Native.String.{◌++◌}
use atlas_idp.Common.{
  sym, ◌||◌, ℕ, ◌≡◌, ◌↔◌, refl, ap, ◌∙◌, inl, inr, String, false, none, some, Result, ok, err,
  arith, str_eq, ◌==◌, ==_iff, ◌>>=◌, Bool-cases, Result-cases,
}
use atlas_idp.Seal.Ui.{
  rendered, DocumentResponse, Backend, get, HttpResponse, http_error, html, redirect, decoded,
  optional, do_request, get_download_url, get_document, download, status, status_page,
}

optional-decoded : {A : Type 0} (r : Result A) → ¬ (optional (decoded r) ≡ ok none)
optional-decoded (ok a) h = cc
optional-decoded (err e) h = cc

err≢ok : {A : Type 0} {e : String} {a : A} → ¬ (◌≡◌ {A = Result A} (err e) (ok a))
err≢ok h = cc

html≢missing : {page : String} → ¬ (html page ≡ http_error 404 "document not found")
html≢missing h = cc

rendered≢missing : (r : Result String) → ¬ (rendered r ≡ http_error 404 "document not found")
rendered≢missing (ok page) h = cc
rendered≢missing (err e) h = cc

module _ (b : Backend) (base_url : String) where
  abbrev pub download_answer : String → b.World → Result HttpResponse
  download_answer id w =
      (do_request b base_url get ("/api/v1/documents/" ++ (id ++ "/download")) none w).0

  get_download_url-ok :
      (id url : String) (w : b.World)
      → (get_download_url b base_url id w).0 ≡ ok url
      → (resp : HttpResponse) × (download_answer id w ≡ ok resp)
        × (resp.status_code ≡ 200)
        × (b.decode_url resp.content ≡ ok url)
  unfolding get_download_url
  get_download_url-ok id url w h = elim (Result-cases (download_answer id w)) [
    | inl (e, bad) ↦ absurd (ground (arith, bad))
    | inr (resp, answered) ↦ elim (Bool-cases (resp.status_code == 200)) [
      | inl good ↦ elim (Result-cases (b.decode_url resp.content)) [
        | inl (e, bad) ↦ absurd (ground (arith, answered, good, bad))
        | inr (url', read) ↦ (
          resp,
          answered,
          (==_iff resp.status_code 200).0 good,
          ground (arith, answered, good, read),
        )
      ]
      | inr other ↦ absurd (ground (arith, answered, other))
    ]
  ]

  -- The interface redirects a download only with 303 and only to the address that the API gave in
  -- an answer with status 200 that could be decoded.
  pub download-redirects :
      (id url : String) (code : ℕ) (w : b.World)
      → (download b base_url id w).0 ≡ redirect code url
      → (code ≡ 303)
        × (resp : HttpResponse) × (download_answer id w ≡ ok resp)
        × (resp.status_code ≡ 200)
        × (b.decode_url resp.content ≡ ok url)
  unfolding download
  download-redirects id url code w h = elim (Bool-cases (str_eq id "")) [
    | inl empty ↦ absurd (ground (arith, empty))
    | inr given ↦ elim (Result-cases ((get_download_url b base_url id w).0)) [
      | inl (e, bad) ↦ absurd (ground (arith, given, bad))
      | inr (url', found) ↦
          let same : redirect 303 url' ≡ redirect code url =
            rw (download, given, ◌>>=◌, found) at h in
          let (resp, answered, good, read) = get_download_url-ok id url w (found ∙ ap ok (cc)) in
          (cc, resp, answered, good, read)
    ]
  ]

  page≢missing :
      (id : String) (doc : DocumentResponse)
      → ¬ (status_page b base_url id doc ≡ http_error 404 "document not found")
  unfolding status_page
  page≢missing id doc h =
      elim (Bool-cases (str_eq doc.status "pending" || str_eq doc.status "processing")) [
        | inl early ↦ rendered≢missing (b.render_pending id) (rw (status_page, early) at h)
        | inr late ↦ elim (Bool-cases (str_eq doc.status "completed")) [
          | inl done ↦
              rendered≢missing (b.render_download id doc.status) (rw (status_page, late, done) at h)
          | inr failed ↦ html≢missing (rw (status_page, late, failed) at h)
        ]
      ]

  abbrev document_answer : String → b.World → Result HttpResponse
  document_answer id w = (do_request b base_url get ("/api/v1/documents/" ++ id) none w).0

  get_document-none :
      (id : String) (w : b.World)
      → ((get_document b base_url id w).0 ≡ ok none)
        ↔ ((resp : HttpResponse) × (document_answer id w ≡ ok resp) × (resp.status_code ≡ 404))
  unfolding get_document
  get_document-none id w = elim (Result-cases (document_answer id w)) [
    | inl (e, bad) ↦ (λ h. absurd (ground (arith, bad)), λ (resp, answered, _). absurd (cc))
    | inr (resp, answered) ↦ elim (Bool-cases (resp.status_code == 404)) [
      | inl gone ↦ (
        λ h. (resp, answered, (==_iff resp.status_code 404).0 gone),
        λ _. ground (arith, answered, gone),
      )
      | inr other ↦ (
        λ h. absurd (elim (Bool-cases (resp.status_code == 200)) [
          | inl good ↦
              optional-decoded (b.decode_document resp.content)
                (rw (get_document, ◌>>=◌, answered, other, good) at h)
          | inr odd ↦ err≢ok (rw (get_document, ◌>>=◌, answered, other, odd) at h)
        ]),
        λ (resp', answered', e). let same : resp ≡ resp' = cc in absurd (ground (arith, same)),
      )
    ]
  ]

  -- For an identifier that is not empty, the status page says that the document is not found
  -- exactly when the API answered 404.
  status-missing :
      (id : String) (w : b.World)
      → str_eq id "" ≡ false
      → ((status b base_url id w).0 ≡ http_error 404 "document not found")
        ↔ ((resp : HttpResponse) × (document_answer id w ≡ ok resp) × (resp.status_code ≡ 404))
  unfolding status
  status-missing id w given = elim (Result-cases ((get_document b base_url id w).0)) [
    | inl (e, bad) ↦ (
      λ h. absurd (ground (arith, given, bad)),
      λ r. absurd (err≢ok (sym bad ∙ (get_document-none id w).1 r)),
    )
    | inr (none, gone) ↦
        (λ h. (get_document-none id w).0 gone, λ r. rw (status, given, ◌>>=◌, gone) refl)
    | inr (some doc, found) ↦ (
      λ h. absurd (page≢missing id doc (rw (status, given, ◌>>=◌, found) at h)),
      λ r. absurd (ground (arith, found, (get_document-none id w).1 r)),
    )
  ]
