-- ===== src/Seal/Api/Read.antt =====
-- The handlers of apps/seal/seal-api/internal/handler.go that read one document: when each answers
-- with which status.
use atlas_idp.Common.{
  ℕ, ◌≡◌, ◌⊎◌, inl, inr, refl, String, Option, none, some, ok, err, ◌>>=◌, str_eq, arith,
  if◌then◌else◌, Result-cases, Bool-cases, Option-cases, Result,
}
use atlas_idp.Seal.Messages.{Document}
use atlas_idp.Seal.Platform.{Platform}
use atlas_idp.Seal.Platform.Laws.{PlatformLaws}
use atlas_idp.Seal.Platform.Database.{DatabaseLaws, IsServing}
use atlas_idp.Seal.Api.{
  with_document, repo_get_document, get_document, get_download_url, verify_document,
}

module _ (p : Platform) where
  -- `GetDownloadURL` and `VerifyDocument` always have the same status, and both have the status of
  -- `GetDocument` unless that is 200.
  pub verify-agrees-download :
      (endpoint id_text : String) (w : p.World)
      → ((verify_document p id_text w).0.code ≡ (get_download_url p endpoint id_text w).0.code)
        × (((get_document p id_text w).0.code ≡ 200)
            ⊎ ((get_download_url p endpoint id_text w).0.code ≡ (get_document p id_text w).0.code))
  unfolding verify_document get_download_url get_document
  verify-agrees-download endpoint id_text w = ground arith

module _ (p : Platform) (l : PlatformLaws p) (d : DatabaseLaws p l) (s : IsServing p l d) where
  -- The status that an identifier and the table call for.
  abbrev code_for : Result p.Uuid → (p.Uuid → Option (Document p.Uuid)) → ℕ
  code_for (err _) table = 400
  code_for (ok id) table = elim (table id) [
    | none ↦ 404
    | some doc ↦ if str_eq doc.status "completed" then 200 else 409
  ]

  -- On a database that answers, `GetDownloadURL` answers 400 for an identifier that cannot be
  -- parsed, 404 for one that is not in the table, 409 for a document that is not completed and 200
  -- for one that is, and leaves the table as it was.
  pub download-code :
      (endpoint id_text : String) (w : p.World)
      → ((get_download_url p endpoint id_text w).0.code
          ≡ code_for (p.parse_uuid id_text) (d.documents w))
        × (d.documents (get_download_url p endpoint id_text w).1 ≡ d.documents w)
  unfolding get_download_url
  download-code endpoint id_text w = elim (Result-cases (p.parse_uuid id_text)) [
    | inl (e, bad) ↦ rw (bad, with_document) (refl, refl)
    | inr (id, read) ↦
        let same = d.select_keeps id w in
        elim (Option-cases (d.documents w id)) [
          | inl missing ↦
              rw
                (
                  read,
                  with_document,
                  repo_get_document,
                  ◌>>=◌,
                  s.select_missing id w missing,
                  code_for,
                  missing,
                )
                (refl, same)
          | inr (doc, found) ↦ elim (Bool-cases (str_eq doc.status "completed")) [
            | inl done ↦
                rw
                  (
                    read,
                    with_document,
                    repo_get_document,
                    ◌>>=◌,
                    s.select_found id w doc found,
                    code_for,
                    found,
                    done,
                  )
                  (refl, same)
            | inr early ↦
                rw
                  (
                    read,
                    with_document,
                    repo_get_document,
                    ◌>>=◌,
                    s.select_found id w doc found,
                    code_for,
                    found,
                    early,
                  )
                  (refl, same)
          ]
        ]
  ]
