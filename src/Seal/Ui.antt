-- ===== src/Seal/Ui.antt =====
-- apps/seal/seal-ui: the client of internal/client/api.go and the handlers of
-- internal/handlers/document.go. Logs and metrics are left out. The HTTP library, JSON and the
-- templates' engine are parameters.
pub mod Retry
pub mod Pages
use Prim.Native.String.{◌++◌}
use atlas_idp.Common.{
  ℕ, zero, suc, ◌*◌, ◌^◌, String, Bool, true, false, Option, none, some, ◌||◌, str_eq, leb, ◌==◌,
  not, if◌then◌else◌, Result, ok, err, Act, ◌>>=◌, ◌>>◌, pure, decimal,
}

pub data Method : Type 0 where
  get post : Method

pub record HttpResponse : Type 0 where
  pub status_code : ℕ
  pub content : String

pub record DocumentResponse : Type 0 where
  pub id : String
  pub status : String
  pub input_text : String
  pub s3_path : String
  pub file_size : ℕ
  pub error : String
  pub created_at : String
  pub updated_at : String

pub record VerifyResponse : Type 0 where
  pub valid : Bool
  pub subject : String
  pub s3_path : String
  pub signed_by : String
  pub error : String

pub record Backend : Type 1 where
  pub World : Type 0
  -- http.NewRequestWithContext: the error of a URL that cannot be parsed
  pub bad_request : Method → String → Option String
  -- http.Client.Do, with the body already read
  pub send : Method → String → Option String → Act World (Result HttpResponse)
  -- time.Sleep, in milliseconds
  pub sleep : ℕ → Act World (Unit {0})
  -- encoding/json at the types of the client
  pub encode_text : String → String
  pub decode_created : String → Result String
  pub decode_document : String → Result DocumentResponse
  pub decode_url : String → Result String
  pub decode_verify : String → Result VerifyResponse
  -- the templates of internal/templates
  pub render_status : String → Result String
  pub render_pending : String → Result String
  pub render_download : String → String → Result String

abbrev pub max_retries : ℕ
max_retries = 3

-- What a handler writes: http.Error, a page, or http.Redirect.
pub data Page : Type 0 where
  http_error : ℕ → String → Page
  html : String → Page
  redirect : ℕ → String → Page

abbrev unexpected : HttpResponse → String
unexpected resp = "unexpected status " ++ (decimal resp.status_code ++ (": " ++ resp.content))

abbrev pub decoded : {A : Type 0} → Result A → Result A
decoded (ok a) = ok a
decoded (err e) = err ("decode response: " ++ e)

abbrev pub optional : {A : Type 0} → Result A → Result (Option A)
optional (ok a) = ok (some a)
optional (err e) = err e

abbrev pub rendered : Result String → Page
rendered (ok page) = html page
rendered (err _) = http_error 500 "internal error"

module _ (b : Backend) (base_url : String) where
  -- the rounds of `doRequest` from an attempt on, with the rounds left and the last error
  unfoldable pub do_request_from :
      ℕ → ℕ → String → Method → String → Option String → Act b.World (Result HttpResponse)
  do_request_from zero attempt last_err method path body w =
      (err ("request failed after 3 attempts: " ++ last_err), w)
  do_request_from (suc left) attempt last_err method path body w =
      let w₁ = if attempt == 0 then w else (b.sleep (100 * 2 ^ attempt) w).1 in
      elim (b.bad_request method (base_url ++ path)) [
        | some e ↦ (err ("create request: " ++ e), w₁)
        | none ↦
            let (answer, w₂) = b.send method (base_url ++ path) body w₁ in
            elim answer [
              | err e ↦ do_request_from left (suc attempt) ("do request: " ++ e) method path body w₂
              | ok resp ↦
                  let again =
                    do_request_from left (suc attempt)
                      ("unexpected status " ++ decimal resp.status_code) method path body w₂ in
                  if leb 500 resp.status_code then again else (ok resp, w₂)
            ]
      ]

  unfoldable pub do_request : Method → String → Option String → Act b.World (Result HttpResponse)
  unfolding do_request_from
  do_request method path body = do_request_from max_retries 0 "" method path body

  -- the identifier of the created document
  unfoldable pub create_document : String → Act b.World (Result String)
  create_document text = do
    answer ← do_request post "/api/v1/documents" (some (b.encode_text text))
    elim answer [
      | err e ↦ pure (err e)
      | ok resp ↦
          if resp.status_code == 201
          then pure (decoded (b.decode_created resp.content))
          else pure (err (unexpected resp))
    ]

  -- no document where the API answers 404
  unfoldable pub get_document : String → Act b.World (Result (Option DocumentResponse))
  get_document id = do
    answer ← do_request get ("/api/v1/documents/" ++ id) none
    elim answer [
      | err e ↦ pure (err e)
      | ok resp ↦
          if resp.status_code == 404
          then pure (ok none)
          else if resp.status_code == 200
          then pure (optional (decoded (b.decode_document resp.content)))
          else pure (err (unexpected resp))
    ]

  unfoldable pub get_download_url : String → Act b.World (Result String)
  get_download_url id = do
    answer ← do_request get ("/api/v1/documents/" ++ (id ++ "/download")) none
    elim answer [
      | err e ↦ pure (err e)
      | ok resp ↦
          if resp.status_code == 200
          then pure (decoded (b.decode_url resp.content))
          else pure (err (unexpected resp))
    ]

  -- the status of the answer is not looked at
  unfoldable pub verify_document : String → Act b.World (Result VerifyResponse)
  verify_document id = do
    answer ← do_request get ("/api/v1/documents/" ++ (id ++ "/verify")) none
    elim answer [ err e ↦ pure (err e) | ok resp ↦ pure (decoded (b.decode_verify resp.content)) ]

  -- the handlers `Create`, `Status`, `Download` and `Verify`
  unfoldable pub create : String → Act b.World Page
  create text = if str_eq text "" then pure (http_error 400 "text is required") else do
    made ← create_document text
    elim made [
      | err _ ↦ pure (http_error 500 "failed to create document")
      | ok id ↦ pure (rendered (b.render_status id))
    ]

  pub status_page : String → DocumentResponse → Page
  status_page id doc =
      if str_eq doc.status "pending" || str_eq doc.status "processing"
      then rendered (b.render_pending id)
      else if str_eq doc.status "completed"
      then rendered (b.render_download id doc.status)
      else html (
          "<div class=\"bg-red-50 p-4 rounded-lg text-red-700\">Failed: "
          ++ (doc.error ++ "</div>"))

  pub status : String → Act b.World Page
  unfolding status_page
  status id = if str_eq id "" then pure (http_error 400 "missing id") else do
    found ← get_document id
    elim found [
      | err _ ↦ pure (http_error 500 "failed to check status")
      | ok none ↦ pure (http_error 404 "document not found")
      | ok (some doc) ↦ pure (status_page id doc)
    ]

  unfoldable pub download : String → Act b.World Page
  download id = if str_eq id "" then pure (http_error 400 "missing id") else do
    found ← get_download_url id
    elim found [
      | err _ ↦ pure (http_error 409 "document not ready")
      | ok url ↦ pure (redirect 303 url)
    ]

  unfoldable pub verify : String → Act b.World Page
  verify id = if str_eq id "" then pure (http_error 400 "missing id") else do
    found ← verify_document id
    elim found [
      | err _ ↦
          pure
            (html "<div class=\"bg-red-50 p-4 rounded-lg text-red-700\">Verification failed</div>")
      | ok resp ↦
          if resp.valid
          then pure (
              html
                "<div class=\"bg-green-50 p-4 rounded-lg text-green-700\">Signature valid — document is authentic and untampered.</div>")
          else pure (
              html (
                "<div class=\"bg-yellow-50 p-4 rounded-lg text-yellow-700\">"
                ++ (resp.error ++ "</div>")))
    ]
