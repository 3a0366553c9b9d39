-- ===== src/Seal/Api/Create.antt =====
-- `CreateDocument` of apps/seal/seal-api/internal/handler.go, with `PushTask` of queue.go.
use atlas_idp.Common.{
  ◌≡◌, ◌≢◌, refl, ap, ◌∙◌, String, none, some, [], ◌∷◌, ◌++◌, ok, ◌>>=◌, str_eq, false, arith,
  Result-cases, inl, inr,
}
use atlas_idp.Seal.Messages.{JobMessage, Document, pending_queue}
use atlas_idp.Seal.Platform.{Platform}
use atlas_idp.Seal.Platform.Laws.{PlatformLaws, pushed_right, update}
use atlas_idp.Seal.Platform.Database.{DatabaseLaws, RoundTrips}
use atlas_idp.Seal.Api.{created_body, push_task, traced_job, create_document}

job_of : (p : Platform) → p.Ctx → p.Uuid → String → JobMessage
job_of p ctx id text =
    traced_job p (p.start_span ctx "CreateDocument")
      (record { document_id = p.uuid_text id; input_text = text; trace_parent = "" })

job-named :
    (p : Platform) (ctx : p.Ctx) (id : p.Uuid) (text : String)
    → ((job_of p ctx id text).document_id ≡ p.uuid_text id)
      × ((job_of p ctx id text).input_text ≡ text)
unfolding job_of
job-named p ctx id text = ground arith

module _ (p : Platform) (l : PlatformLaws p) (d : DatabaseLaws p l) where
  -- A valid request whose INSERT the database carries out and whose message can be written as JSON
  -- and is taken by Redis, where JSON and uuid read back what they wrote, is answered with 201 and
  -- a new identifier; the table has a pending row with the text under it and every other row as
  -- before, and one message was appended to the pending list that reads back as a job with that
  -- identifier and text.
  pub create_document-queues :
      (t : RoundTrips p) (writes : (m : JobMessage) → (job : String) × (p.marshal_job m ≡ ok job))
      (pushes : (k v : String) (w : p.World) → (p.r_push k v w).0 ≡ none) (ctx : p.Ctx)
      (body text : String) (w : p.World)
      → p.decode_create body ≡ ok text
      → str_eq text "" ≡ false
      → (id : p.Uuid) × ((p.insert_document text w).0 ≡ ok id)
      → let w' = (create_document p ctx body w).1 in
        (id : p.Uuid) × (job : String) × (m : JobMessage) × (doc : Document p.Uuid)
        × ((create_document p ctx body w).0 ≡ record { code = 201; body = created_body id })
        × (d.documents w id ≡ none)
        × (d.documents w' id ≡ some doc)
        × (doc.status ≡ "pending")
        × (doc.input_text ≡ text)
        × ((other : p.Uuid) → other ≢ id → d.documents w' other ≡ d.documents w other)
        × (l.lists w' pending_queue ≡ l.lists w pending_queue ++ job ∷ [])
        × (p.unmarshal_job job ≡ ok m)
        × (p.parse_uuid m.document_id ≡ ok id)
        × (m.input_text ≡ text)
  unfolding create_document push_task job_of pushed_right update
  create_document-queues t writes pushes ctx body text w decoded given (id, inserted) =
      let w₁ = (p.insert_document text w).1 in
      let m = job_of p ctx id text in
      let (job, written) = writes m in
      let (fresh, doc, there, _, pending, texts, _, _) = d.insert_done text w id inserted in
      let pushed = l.r_push_done pending_queue job w₁ (pushes pending_queue job w₁) in
      let apart = d.r_push_apart pending_queue job w₁ in
      let (named, says) = job-named p ctx id text in
      rw (create_document, decoded, given, ◌>>=◌, inserted, push_task, written)
        (
          id,
          job,
          m,
          doc,
          refl,
          fresh,
          ap (λ f. f id) apart ∙ there,
          pending,
          texts,
          λ other ne. ap (λ f. f other) apart ∙ d.insert_other text w id other inserted ne,
          rw (pushed, d.insert_keeps) refl,
          t.job_text m job written,
          rw named (t.uuid_read id),
          says,
        )

  -- When Redis refuses every push and carries none of it out, a valid request whose INSERT the
  -- database carries out is answered with 201 all the same: the document is in the table as
  -- pending, and the lists are as they were.
  pub create_document-strands :
      (ctx : p.Ctx) (body text : String) (w : p.World)
      → p.decode_create body ≡ ok text
      → str_eq text "" ≡ false
      → (id : p.Uuid) × ((p.insert_document text w).0 ≡ ok id)
      → ((k v : String) (u : p.World)
          → (e : String) × ((p.r_push k v u).0 ≡ some e) × (l.lists (p.r_push k v u).1 ≡ l.lists u))
      → let w' = (create_document p ctx body w).1 in
        (id : p.Uuid) × (doc : Document p.Uuid) × ((create_document p ctx body w).0
          ≡ record { code = 201; body = created_body id })
        × (d.documents w' id ≡ some doc)
        × (doc.status ≡ "pending")
        × (l.lists w' ≡ l.lists w)
  unfolding create_document push_task job_of
  create_document-strands ctx body text w decoded given (id, inserted) refuses =
      let w₁ = (p.insert_document text w).1 in
      let (_, doc, there, _, pending, _, _, _) = d.insert_done text w id inserted in
      elim (Result-cases (p.marshal_job (job_of p ctx id text))) [
        | inl (e, bad) ↦
            rw (create_document, decoded, given, ◌>>=◌, inserted, push_task, bad)
              (id, doc, refl, there, pending, d.insert_keeps text w)
        | inr (job, written) ↦
            let (_, _, same) = refuses pending_queue job w₁ in
            rw (create_document, decoded, given, ◌>>=◌, inserted, push_task, written)
              (
                id,
                doc,
                refl,
                ap (λ f. f id) (d.r_push_apart pending_queue job w₁) ∙ there,
                pending,
                same ∙ d.insert_keeps text w,
              )
      ]
