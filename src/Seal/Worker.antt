-- ===== src/Seal/Worker.antt =====
-- apps/seal/seal-worker/internal: worker.go, storage.go, pdf.go and `Sign` of signer.go.
-- Logs, metrics and span ends are left out.
pub mod Upload
pub mod Settle
pub mod Delivery
pub mod Rounds
pub mod Bound
use atlas_idp.Common.{
  ℕ, zero, suc, ◌*◌, ◌^◌, String, true, false, Option, none, some, Bytes, str_eq, leb,
  if◌then◌else◌, Result, ok, err, Act, ◌>>=◌, ◌>>◌, pure,
}
use Prim.Native.String.{◌++◌}
use atlas_idp.Seal.Messages.{
  JobMessage, ResultMessage, pending_queue, processing_queue, results_queue, dlq_queue,
}
use atlas_idp.Seal.Platform.{Platform, got, nil, failed}

abbrev pub max_job_retries : ℕ
max_job_retries = 3

abbrev pub max_retries : ℕ
max_retries = 3

abbrev pub output_bucket : String
output_bucket = "seal-outputs"

-- How `Run` ended: the context was cancelled, BLMOVE failed, or the rounds given are used up.
pub data RunEnd : Type 0 where
  stopped : RunEnd
  broken : String → RunEnd
  running : RunEnd

module _ (p : Platform) where
  unfoldable pub generate_pdf : String → Result Bytes
  generate_pdf text = elim (p.render_pdf text) [
    | ok pdf ↦ ok pdf
    | err e ↦ err ("generate pdf: " ++ e)
  ]

  unfoldable pub sign : p.Signer → Bytes → Result Bytes
  sign signer pdf = elim (p.read_pdf pdf) [
    | err e ↦ err ("pdf reader: " ++ e)
    | ok _ ↦ elim (p.sign_pdf signer pdf) [ ok signed ↦ ok signed | err e ↦ err ("pdfsign: " ++ e) ]
  ]

  -- `NewStorage` from the client on: the bucket is made, or is there
  unfoldable pub ensure_bucket : Act p.World (Option String)
  ensure_bucket = do
    failure ← p.make_bucket output_bucket
    elim failure [
      | none ↦ pure none
      | some e ↦ do
        there ← p.bucket_exists output_bucket
        elim there [ ok true ↦ pure none | _ ↦ pure (some ("ensure bucket seal-outputs: " ++ e)) ]
    ]

  -- the rounds of `Upload` from round i on, with the rounds left and the last error
  unfoldable pub upload_from : ℕ → ℕ → String → String → Bytes → Act p.World (Option String)
  upload_from zero i last_err key pdf w = (some ("upload failed after 3 retries: " ++ last_err), w)
  upload_from (suc left) i last_err key pdf w =
      let (e, w') = p.put_object output_bucket key pdf w in
      elim e [
        | none ↦ (none, w')
        | some e' ↦ upload_from left (suc i) e' key pdf (p.sleep (1000 * 2 ^ i) w').1
      ]

  unfoldable pub upload : String → Bytes → Act p.World (Option String)
  unfolding upload_from
  upload key pdf = upload_from max_retries 0 "" key pdf

  unfoldable pub remove_from_processing : String → Act p.World (Unit {0})
  remove_from_processing job = do p.l_rem processing_queue job; pure tt

  pub push_to_dlq : String → Act p.World (Unit {0})
  push_to_dlq job = do p.l_push dlq_queue job; remove_from_processing job

  pub retry_or_dlq : String → Act p.World (Unit {0})
  retry_or_dlq job = do
    count ← p.l_len processing_queue
    elim count [
      | err _ ↦ push_to_dlq job
      | ok n ↦ if leb max_job_retries n then push_to_dlq job else do
        e ← p.l_push pending_queue job
        elim e [ none ↦ pure tt | some _ ↦ push_to_dlq job ]
    ]

  abbrev pub traced : p.Ctx → ResultMessage → ResultMessage
  traced ctx m = elim (p.inject ctx) [ none ↦ m | some tp ↦ record m { trace_parent = tp } ]

  unfoldable pub push_result : p.Ctx → ResultMessage → Act p.World (Option String)
  push_result ctx m = elim (p.marshal_result (traced ctx m)) [
    | err e ↦ pure (some ("marshal result: " ++ e))
    | ok text ↦ p.r_push results_queue text
  ]

  abbrev pub failed_result : p.Uuid → String → ResultMessage
  failed_result id e = record {
    document_id = p.uuid_text id;
    status = "failed";
    s3_path = "";
    error = e;
    trace_parent = "";
  }

  abbrev pub object_key : p.Uuid → String
  object_key id = p.uuid_text id ++ ".pdf"

  abbrev pub completed_result : p.Uuid → ResultMessage
  completed_result id = record {
    document_id = p.uuid_text id;
    status = "completed";
    s3_path = object_key id;
    error = "";
    trace_parent = "";
  }

  -- what `process` does on each error that it reports
  pub fail_job : p.Ctx → String → p.Uuid → String → Act p.World (Unit {0})
  fail_job ctx job id e = do push_result ctx (failed_result id e); retry_or_dlq job

  unfoldable pub complete_job : p.Ctx → String → p.Uuid → Act p.World (Unit {0})
  complete_job ctx job id = do push_result ctx (completed_result id); remove_from_processing job

  unfoldable pub sign_if : Option p.Signer → Bytes → Result Bytes
  sign_if none pdf = ok pdf
  sign_if (some signer) pdf = sign signer pdf

  -- `process` from a message that has a document ID on
  unfoldable pub process_document :
      Option p.Signer → p.Ctx → String → p.Uuid → String → Act p.World (Unit {0})
  process_document signer ctx job id text =
      if str_eq text "" then fail_job ctx job id "empty input text" else elim (generate_pdf text) [
        | err e ↦ fail_job ctx job id ("pdf generation: " ++ e)
        | ok pdf ↦ elim (sign_if signer pdf) [
          | err e ↦ fail_job ctx job id ("pdf sign: " ++ e)
          | ok signed ↦ do
            e ← upload (object_key id) signed
            elim e [
              | some e' ↦ fail_job ctx job id ("upload: " ++ e')
              | none ↦ complete_job ctx job id
            ]
        ]
      ]

  abbrev pub job_context : p.Ctx → JobMessage → p.Ctx
  job_context ctx msg =
      p.start_span (if str_eq msg.trace_parent "" then ctx else p.extract ctx msg.trace_parent)
        "ProcessJob"

  unfoldable pub process : Option p.Signer → p.Ctx → String → Act p.World (Unit {0})
  process signer ctx job = elim (p.unmarshal_job job) [
    | err _ ↦ remove_from_processing job
    | ok msg ↦ elim (p.parse_uuid msg.document_id) [
      | err _ ↦ remove_from_processing job
      | ok id ↦ process_document signer (job_context ctx msg) job id msg.input_text
    ]
  ]

  -- `Run`, for a number of rounds of its loop
  unfoldable pub run : ℕ → Option p.Signer → p.Ctx → Act p.World RunEnd
  run zero signer ctx w = (running, w)
  run (suc rounds) signer ctx w =
      let (cancelled, w₁) = p.is_done ctx w in
      elim cancelled [
        | true ↦ (stopped, w₁)
        | false ↦
            let (reply, w₂) = p.bl_move pending_queue processing_queue w₁ in
            elim reply [
              | nil ↦ run rounds signer ctx w₂
              | failed e ↦ (broken ("blmove: " ++ e), w₂)
              | got job ↦ run rounds signer ctx (process signer ctx job w₂).1
            ]
      ]
