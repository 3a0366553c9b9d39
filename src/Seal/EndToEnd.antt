-- ===== src/Seal/EndToEnd.antt =====
-- The document's way through apps/seal: the worker (seal-worker/internal/worker.go), the consumer
-- (seal-api/cmd/api/main.go) and the download handler (seal-api/internal/handler.go).
use Prim.Native.String.{◌++◌}
use atlas_idp.Common.{◌≡◌, refl, String, Option, none, some, [], ◌∷◌, ◌>>=◌, arith}
use atlas_idp.Seal.Messages.{ResultMessage, Document, results_queue}
use atlas_idp.Seal.Platform.{Platform}
use atlas_idp.Seal.Platform.Laws.{PlatformLaws, IsReachable, removed, pushed_right}
use atlas_idp.Seal.Platform.Database.{DatabaseLaws, IsServing, RoundTrips}
use atlas_idp.Seal.Worker.{process, object_key, completed_result, traced}
use atlas_idp.Seal.Worker.Settle.{judge, completing, result_context, result_text, process-settles}
use atlas_idp.Seal.Api.{consume_round, get_download_url, with_document, repo_get_document, url_body}
use atlas_idp.Seal.Api.Consume.{Says, after, consume_round-applies}

-- writing the trace into a message changes no other field
named-traced :
    (p : Platform) (ctx : p.Ctx) (m : ResultMessage)
    → ((traced p ctx m).document_id ≡ m.document_id)
      × ((traced p ctx m).status ≡ m.status)
      × ((traced p ctx m).s3_path ≡ m.s3_path)
      × ((traced p ctx m).error ≡ m.error)
named-traced p ctx m = ground arith

module _ (p : Platform) (l : PlatformLaws p) (r : IsReachable p l) (d : DatabaseLaws p l)
    (s : IsServing p l d) (t : RoundTrips p) where
  -- what the worker reports is read back as the document's own result
  completed-Says :
      (ctx : p.Ctx) (id : p.Uuid)
      → Says p l d s
          (result_text p l r ctx (completed_result p id))
          id
          (traced p ctx (completed_result p id))
  completed-Says ctx id =
      let m = traced p ctx (completed_result p id) in
      (
        t.result_text m _ (r.marshal_answers m).1,
        rw (named-traced p ctx (completed_result p id)).0 (t.uuid_read id),
      )

  download-found :
      (endpoint : String) (id : p.Uuid) (doc : Document p.Uuid) (w : p.World)
      → d.documents w id ≡ some doc
      → doc.status ≡ "completed"
      → (get_download_url p endpoint (p.uuid_text id) w).0
        ≡ record { code = 200; body = url_body (endpoint ++ ("/seal-outputs/" ++ doc.s3_path)) }
  unfolding get_download_url with_document repo_get_document
  download-found endpoint id doc w found done =
      rw
        (
          with_document,
          t.uuid_read id,
          repo_get_document,
          ◌>>=◌,
          s.select_found id w doc found,
          done,
        )
        refl

  -- A job that the worker completes, with no other result waiting, becomes a document whose
  -- download handler answers 200 with the address of the uploaded object after one round of the
  -- consumer; Redis answers, PostgreSQL carries out the UPDATE with that result and answers the
  -- query, the document is in the table, and JSON and uuid read back what they wrote.
  pub process-consume-download :
      (signer : Option p.Signer) (ctx : p.Ctx) (job : String) (id : p.Uuid) (doc : Document p.Uuid)
      (endpoint : String) (w : p.World)
      → judge p signer job w ≡ completing id
      → l.lists w results_queue ≡ []
      → d.documents (process p signer ctx job w).1 id ≡ some doc
      → ((u : p.World) → (p.update_document id "completed" (object_key p id) "" u).0 ≡ none)
      → (get_download_url p endpoint
          (p.uuid_text id)
          (consume_round p (process p signer ctx job w).1).1).0
        ≡ record { code = 200; body = url_body (endpoint ++ ("/seal-outputs/" ++ object_key p id)) }
  unfolding removed pushed_right
  process-consume-download signer ctx job id doc endpoint w judged idle found kept =
      let w₁ = (process p signer ctx job w).1 in
      let c = result_context p ctx job in
      let m = traced p c (completed_result p id) in
      let (_, done, path, quiet) = named-traced p c (completed_result p id) in
      let held : l.lists w₁ results_queue ≡ result_text p l r c (completed_result p id) ∷ [] =
        rw (process-settles p l r signer ctx job w, judged, idle) refl in
      let (now, written, _, _) =
        consume_round-applies p l d s (result_text p l r c (completed_result p id)) [] id m doc w₁
          held (completed-Says c id) (λ u. rw (done, path, quiet) (kept u)) found in
      rw (← path)
        (download-found endpoint id (after p l d s doc m now) (consume_round p w₁).1 written done)
