-- ===== src/Seal/Api.antt =====
-- apps/seal/seal-api: the handlers of internal/handler.go, internal/repository.go and
-- internal/queue.go, and the background consumer of cmd/api/main.go. Logs, metrics and spans are
-- left out, but for the span whose context a message carries.
pub mod Create
pub mod Read
pub mod Consume
use Prim.Native.String.{◌++◌}
use atlas_idp.Common.{
  ℕ, zero, suc, String, Option, none, some, List, [], ◌∷◌, str_eq, if◌then◌else◌, Result, ok, err,
  Act, ◌>>=◌, ◌>>◌, pure,
}
use atlas_idp.Seal.Messages.{JobMessage, ResultMessage, Document, pending_queue, results_queue}
use atlas_idp.Seal.Platform.{Platform, Reply, got, nil, failed, Query, row, no_rows, broken}

-- The bodies that the handlers write, before they are encoded as JSON or plain text.
pub data Body (Uuid : Type 0) : Type 0 where
  error_body : String → Body Uuid
  created_body : Uuid → Body Uuid
  document_body : Document Uuid → Body Uuid
  url_body : String → Body Uuid
  verified_body : (subject s3_path signed_by : String) → Body Uuid
  text_body : String → Body Uuid

pub record Response (Uuid : Type 0) : Type 0 where
  pub code : ℕ
  pub body : Body Uuid

module _ (p : Platform) where
  abbrev respond : ℕ → Body p.Uuid → Act p.World (Response p.Uuid)
  respond code body = pure (record { code = code; body = body })

  abbrev refuse : ℕ → String → Act p.World (Response p.Uuid)
  refuse code e = respond code (error_body e)

  -- `Repository.CreateDocument`, `GetDocument` (nil for no row) and `UpdateStatus`
  repo_create_document : String → Act p.World (Result p.Uuid)
  repo_create_document text = p.insert_document text

  unfoldable pub repo_get_document : p.Uuid → Act p.World (Result (Option (Document p.Uuid)))
  repo_get_document id = do
    found ← p.select_document id
    elim found [
      | row doc ↦ pure (ok (some doc))
      | no_rows ↦ pure (ok none)
      | broken e ↦ pure (err e)
    ]

  pub update_status : p.Uuid → String → String → String → Act p.World (Option String)
  update_status id status s3_path e = p.update_document id status s3_path e

  abbrev pub traced_job : p.Ctx → JobMessage → JobMessage
  traced_job ctx m = elim (p.inject ctx) [ none ↦ m | some tp ↦ record m { trace_parent = tp } ]

  pub push_task : p.Ctx → String → String → Act p.World (Option String)
  push_task ctx id text =
      let m : JobMessage = record { document_id = id; input_text = text; trace_parent = "" } in
      elim (p.marshal_job (traced_job ctx m)) [
        | err e ↦ pure (some e)
        | ok job ↦ p.r_push pending_queue job
      ]

  -- an error of the queue is only logged
  unfoldable pub create_document : p.Ctx → String → Act p.World (Response p.Uuid)
  unfolding repo_create_document
  create_document ctx body = elim (p.decode_create body) [
    | err _ ↦ refuse 400 "invalid JSON body"
    | ok text ↦ if str_eq text "" then refuse 400 "text is required" else do
      made ← repo_create_document text
      elim made [
        | err _ ↦ refuse 500 "failed to create document"
        | ok id ↦ do
          push_task (p.start_span ctx "CreateDocument") (p.uuid_text id) text
          respond 201 (created_body id)
      ]
  ]

  -- The beginning that the three handlers for one document share: parse, look up, refuse.
  unfoldable pub with_document :
      String → (Document p.Uuid → Act p.World (Response p.Uuid)) → Act p.World (Response p.Uuid)
  unfolding repo_get_document
  with_document id_text k = elim (p.parse_uuid id_text) [
    | err _ ↦ refuse 400 "invalid document ID"
    | ok id ↦ do
      found ← repo_get_document id
      elim found [
        | err _ ↦ refuse 500 "failed to get document"
        | ok none ↦ refuse 404 "document not found"
        | ok (some doc) ↦ k doc
      ]
  ]

  unfoldable pub get_document : String → Act p.World (Response p.Uuid)
  unfolding with_document
  get_document id_text = with_document id_text (λ doc. respond 200 (document_body doc))

  unfoldable pub get_download_url : String → String → Act p.World (Response p.Uuid)
  unfolding with_document
  get_download_url endpoint id_text = with_document id_text λ doc.
      if str_eq doc.status "completed"
      then respond 200 (url_body (endpoint ++ ("/seal-outputs/" ++ doc.s3_path)))
      else refuse 409 "document not ready yet"

  pub verify_document : String → Act p.World (Response p.Uuid)
  unfolding with_document
  verify_document id_text = with_document id_text λ doc.
      if str_eq doc.status "completed"
      then respond 200 (verified_body "PDF Signer" doc.s3_path "seal-worker")
      else refuse 409 "document not ready yet"

  unfoldable pub readyz : Act p.World (Response p.Uuid)
  readyz = do
    e ← p.ping
    elim e [ some _ ↦ refuse 503 "database not ready" | none ↦ respond 200 (text_body "ok") ]

  abbrev pub second : List String → Reply String
  second (_ ∷ item ∷ _) = got item
  second _ = failed "unexpected BLPop result"

  pub pop_result : Act p.World (Reply String)
  pop_result = do
    reply ← p.bl_pop results_queue
    elim reply [ nil ↦ pure nil | failed e ↦ pure (failed e) | got items ↦ pure (second items) ]

  -- a result whose text was popped; an error of the database is only logged
  pub apply_result : String → Act p.World (Unit {0})
  apply_result text = elim (p.unmarshal_result text) [
    | err _ ↦ pure tt
    | ok m ↦ elim (p.parse_uuid m.document_id) [
      | err _ ↦ pure tt
      | ok id ↦ do update_status id m.status m.s3_path m.error; pure tt
    ]
  ]

  -- one round of the background consumer
  pub consume_round : Act p.World (Unit {0})
  consume_round = do
    reply ← pop_result
    elim reply [ nil ↦ pure tt | failed _ ↦ p.sleep 1000 | got text ↦ apply_result text ]

  -- the consumer, for a number of rounds
  pub consume : ℕ → Act p.World (Unit {0})
  consume zero w = (tt, w)
  consume (suc n) w = consume n (consume_round w).1
