-- ===== src/Seal/Ui/Retry.antt =====
-- `doRequest` of apps/seal/seal-ui/internal/client/api.go: which attempt answers, and what a
-- repeated POST does.
use Prim.Native.String.{◌++◌}
use atlas_idp.Common.{
  ℕ, zero, suc, ◌+◌, ◌*◌, ◌^◌, ◌<◌, ◌≡◌, ◌↔◌, String, Option, none, some, arith, leb, if◌then◌else◌,
  Result, ok, err,
}
use atlas_idp.Seal.Ui.{Backend, Method, post, HttpResponse, do_request, create_document}

module _ (b : Backend) (base_url : String) (method : Method) (path : String)
    (body : Option String) where
  -- The world in which attempt i sends, when those before it were not answered.
  abbrev pub before : ℕ → b.World → b.World
  before zero w = w
  before (suc i) w =
      (b.sleep (100 * 2 ^ suc i) (b.send method (base_url ++ path) body (before i w)).1).1

  abbrev pub answer : ℕ → b.World → Result HttpResponse
  answer i w = (b.send method (base_url ++ path) body (before i w)).0

  -- An answer that ends the attempts: a response that is no server error.
  abbrev pub settled : Result HttpResponse → Option HttpResponse
  settled (err _) = none
  settled (ok resp) = if leb 500 resp.status_code then none else some resp

  abbrev pub or_else : Option HttpResponse → Option HttpResponse → Option HttpResponse
  or_else none o = o
  or_else (some r) o = some r

  -- With a URL that can be parsed, `doRequest` returns a response exactly when it is the first
  -- among the answers to at most three attempts that is no server error, and no response that it
  -- returns is a server error.
  pub do_request_first :
      (w : b.World) (resp : HttpResponse)
      → b.bad_request method (base_url ++ path) ≡ none
      → (((do_request b base_url method path body w).0 ≡ ok resp) ↔ (
          or_else (settled (answer 0 w)) (or_else (settled (answer 1 w)) (settled (answer 2 w)))
          ≡ some resp))
        × ((do_request b base_url method path body w).0 ≡ ok resp → resp.status_code < 500)
  unfolding do_request
  do_request_first w resp parsed = (ground arith, ground arith)

abbrev create_url : String → String
create_url base_url = base_url ++ "/api/v1/documents"

-- Where every POST that is sent creates a document, also one whose answer is lost, a client that
-- creates one document creates two if the answer to the first attempt is lost and the second is
-- answered with 201.
pub create_document-repeats :
    (b : Backend) (base_url text : String) (w : b.World) (e : String) (resp : HttpResponse)
    (documents : b.World → ℕ)
    → b.bad_request post (create_url base_url) ≡ none
    → ((u : b.World)
        → documents (b.send post (create_url base_url) (some (b.encode_text text)) u).1
          ≡ documents u + 1)
    → ((n : ℕ) (u : b.World) → documents (b.sleep n u).1 ≡ documents u)
    → answer b base_url post "/api/v1/documents" (some (b.encode_text text)) 0 w ≡ err e
    → answer b base_url post "/api/v1/documents" (some (b.encode_text text)) 1 w ≡ ok resp
    → resp.status_code ≡ 201
    → documents (create_document b base_url text w).1 ≡ documents w + 2
unfolding create_document do_request
create_document-repeats b base_url text w e resp documents parsed each pause lost answered made =
    let w₁ = (b.send post (create_url base_url) (some (b.encode_text text)) w).1 in
    let w₂ = (b.sleep 200 w₁).1 in ground (arith, each w, pause 200 w₁, each w₂)
