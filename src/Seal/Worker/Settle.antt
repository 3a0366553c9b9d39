-- ===== src/Seal/Worker/Settle.antt =====
-- What `process` of apps/seal/seal-worker/internal/worker.go does to the Redis lists when the
-- server answers every command: an abstract account of one job, and its refinement.
use atlas_idp.Common.{
  ◌≡◌, ap, ◌∙◌, String, Option, none, some, Bytes, arith, length, str_eq, leb, if◌then◌else◌, ok,
  err, Bool-cases, Result-cases, Option-cases, inl, inr, ◌>>=◌,
}
use Prim.Native.String.{◌++◌}
use atlas_idp.Seal.Messages.{
  ResultMessage, pending_queue, processing_queue, results_queue, dlq_queue,
}
use atlas_idp.Seal.Platform.{Platform}
use atlas_idp.Seal.Platform.Laws.{
  PlatformLaws, IsReachable, Lists, pushed_right, pushed_left, removed,
}
use atlas_idp.Seal.Worker.{
  generate_pdf, sign_if, upload, remove_from_processing, push_to_dlq, retry_or_dlq, push_result,
  traced, failed_result, completed_result, object_key, fail_job, complete_job, process_document,
  job_context, process, max_job_retries,
}
use atlas_idp.Seal.Worker.Upload.{lists-upload}

-- How a job ends: dropped as unreadable, failed with an error text, or completed.
pub data Verdict (Uuid : Type 0) : Type 0 where
  dropped : Verdict Uuid
  failing : Uuid → String → Verdict Uuid
  completing : Uuid → Verdict Uuid

module _ (p : Platform) where
  abbrev pub judge_document : Option p.Signer → p.Uuid → String → p.World → Verdict p.Uuid
  judge_document signer id text w =
      if str_eq text "" then failing id "empty input text" else elim (generate_pdf p text) [
        | err e ↦ failing id ("pdf generation: " ++ e)
        | ok pdf ↦ elim (sign_if p signer pdf) [
          | err e ↦ failing id ("pdf sign: " ++ e)
          | ok signed ↦ elim ((upload p (object_key p id) signed w).0) [
            | some e ↦ failing id ("upload: " ++ e)
            | none ↦ completing id
          ]
        ]
      ]

  -- The verdict on a job, and the context in which its result is written.
  unfoldable pub judge : Option p.Signer → String → p.World → Verdict p.Uuid
  judge signer job w = elim (p.unmarshal_job job) [
    | err _ ↦ dropped
    | ok msg ↦ elim (p.parse_uuid msg.document_id) [
      | err _ ↦ dropped
      | ok id ↦ judge_document signer id msg.input_text w
    ]
  ]

  pub result_context : p.Ctx → String → p.Ctx
  result_context ctx job = elim (p.unmarshal_job job) [
    | err _ ↦ ctx
    | ok msg ↦ job_context p ctx msg
  ]

module _ (p : Platform) (l : PlatformLaws p) (r : IsReachable p l) where
  -- The JSON text of a result, with the trace of its context.
  abbrev pub result_text : p.Ctx → ResultMessage → String
  result_text ctx m = (r.marshal_answers (traced p ctx m)).0

  -- The lists after a job: a completed one leaves the processing list and is reported; a failed
  -- one is reported and goes back to the head of the pending list, or, if the processing list has
  -- at least three entries, to the head of the dead letter list.
  abbrev pub settle : p.Ctx → String → Verdict p.Uuid → Lists → Lists
  settle ctx job dropped q = removed processing_queue job q
  settle ctx job (failing id e) q =
      let q' = pushed_right results_queue (result_text ctx (failed_result p id e)) q in
      if leb max_job_retries (length (q processing_queue))
      then removed processing_queue job (pushed_left dlq_queue job q')
      else pushed_left pending_queue job q'
  settle ctx job (completing id) q =
      removed processing_queue job
        (pushed_right results_queue (result_text ctx (completed_result p id)) q)

  lists-remove_from_processing :
      (job : String) (w : p.World)
      → l.lists (remove_from_processing p job w).1 ≡ removed processing_queue job (l.lists w)
  unfolding remove_from_processing
  lists-remove_from_processing job w =
      l.l_rem_done processing_queue job w (r.l_rem_answers processing_queue job w)

  lists-push_to_dlq :
      (job : String) (w : p.World)
      → l.lists (push_to_dlq p job w).1
        ≡ removed processing_queue job (pushed_left dlq_queue job (l.lists w))
  unfolding push_to_dlq
  lists-push_to_dlq job w =
      lists-remove_from_processing job _
      ∙ ap (removed processing_queue job)
          (l.l_push_done dlq_queue job w (r.l_push_answers dlq_queue job w))

  lists-push_result :
      (ctx : p.Ctx) (m : ResultMessage) (w : p.World)
      → l.lists (push_result p ctx m w).1
        ≡ pushed_right results_queue (result_text ctx m) (l.lists w)
  unfolding push_result
  lists-push_result ctx m w =
      rw ((r.marshal_answers (traced p ctx m)).1, push_result)
        (l.r_push_done results_queue _ w (r.r_push_answers results_queue _ w))

  lists-retry_or_dlq :
      (job : String) (w : p.World)
      → l.lists (retry_or_dlq p job w).1 ≡ (
          if leb max_job_retries (length (l.lists w processing_queue))
          then removed processing_queue job (pushed_left dlq_queue job (l.lists w))
          else pushed_left pending_queue job (l.lists w))
  unfolding retry_or_dlq
  lists-retry_or_dlq job w =
      let (n, answered) = r.l_len_answers processing_queue w in
      let w' = (p.l_len processing_queue w).1 in
      ground (
        arith,
        answered,
        l.l_len_counts processing_queue w n answered,
        l.l_len_keeps processing_queue w,
        lists-push_to_dlq job w',
        r.l_push_answers pending_queue job w',
        l.l_push_done pending_queue job w',
      )

  lists-fail_job :
      (ctx : p.Ctx) (job : String) (id : p.Uuid) (e : String) (w : p.World)
      → l.lists (fail_job p ctx job id e w).1 ≡ settle ctx job (failing id e) (l.lists w)
  unfolding fail_job pushed_right removed pushed_left
  lists-fail_job ctx job id e w = rw (lists-retry_or_dlq, lists-push_result)

  lists-complete_job :
      (ctx : p.Ctx) (job : String) (id : p.Uuid) (w : p.World)
      → l.lists (complete_job p ctx job id w).1 ≡ settle ctx job (completing id) (l.lists w)
  unfolding complete_job
  lists-complete_job ctx job id w = rw (lists-remove_from_processing, lists-push_result)

  -- the last step of `process`: the upload is over
  lists-after_upload :
      (ctx : p.Ctx) (job : String) (id : p.Uuid) (signed : Bytes) (v : Verdict p.Uuid) (w : p.World)
      → settle ctx job v (l.lists (upload p (object_key p id) signed w).1)
        ≡ settle ctx job v (l.lists w)
  lists-after_upload ctx job id signed v w =
      ap (settle ctx job v) (lists-upload p (object_key p id) signed l w)

  lists-process_document :
      (signer : Option p.Signer) (ctx : p.Ctx) (job : String) (id : p.Uuid) (text : String)
      (w : p.World)
      → l.lists (process_document p signer ctx job id text w).1
        ≡ settle ctx job (judge_document p signer id text w) (l.lists w)
  unfolding process_document
  lists-process_document signer ctx job id text w = elim (Bool-cases (str_eq text "")) [
    | inl empty ↦ rw (empty, process_document) (lists-fail_job ctx job id _ w)
    | inr given ↦ elim (Result-cases (generate_pdf p text)) [
      | inl (e, bad) ↦ rw (given, bad, process_document) (lists-fail_job ctx job id _ w)
      | inr (pdf, made) ↦ elim (Result-cases (sign_if p signer pdf)) [
        | inl (e, bad) ↦ rw (given, made, bad, process_document) (lists-fail_job ctx job id _ w)
        | inr (signed, done) ↦
            let w' = (upload p (object_key p id) signed w).1 in
            elim (Option-cases ((upload p (object_key p id) signed w).0)) [
              | inl stored ↦
                  rw (given, made, done, stored, process_document, ◌>>=◌)
                    (lists-complete_job ctx job id w'
                      ∙ lists-after_upload ctx job id signed (completing id) w)
              | inr (e, bad) ↦
                  rw (given, made, done, bad, process_document, ◌>>=◌)
                    (lists-fail_job ctx job id _ w'
                      ∙ lists-after_upload ctx job id signed (failing id ("upload: " ++ e)) w)
            ]
      ]
    ]
  ]

  -- When Redis answers every command, `process` changes the Redis lists as the abstract account of
  -- one job says: an unreadable job is removed from the processing list, a completed one is removed
  -- and its result appended, and a failed one is reported and goes to the head of the pending list
  -- or, when the processing list has three entries or more, of the dead letter list.
  pub process-settles :
      (signer : Option p.Signer) (ctx : p.Ctx) (job : String) (w : p.World)
      → l.lists (process p signer ctx job w).1
        ≡ settle (result_context p ctx job) job (judge p signer job w) (l.lists w)
  unfolding process judge result_context
  process-settles signer ctx job w = elim (Result-cases (p.unmarshal_job job)) [
    | inl (e, bad) ↦ rw (bad, process, judge) (lists-remove_from_processing job w)
    | inr (msg, read) ↦ elim (Result-cases (p.parse_uuid msg.document_id)) [
      | inl (e, bad) ↦ rw (read, bad, process, judge) (lists-remove_from_processing job w)
      | inr (id, named) ↦
          rw (read, named, process, judge, result_context)
            (lists-process_document signer _ job id msg.input_text w)
    ]
  ]
