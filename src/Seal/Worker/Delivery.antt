-- ===== src/Seal/Worker/Delivery.antt =====
-- Failing jobs under faults of Redis: `retryOrDLQ`, `pushToDLQ` and `process` of
-- apps/seal/seal-worker/internal/worker.go.
use atlas_idp.Common.{
  ◌≡◌, refl, inl, inr, String, Bool, true, false, ◌||◌, Option, none, some, arith, str_eq, eq_refl,
  leb, Bool-cases, Result-cases, Option-cases, ◌>>=◌, List, [], ◌∷◌,
}
use Prim.Native.String.{◌++◌}
use atlas_idp.Seal.Messages.{pending_queue, processing_queue, dlq_queue}
use atlas_idp.Seal.Platform.{Platform}
use atlas_idp.Seal.Platform.Laws.{PlatformLaws, Lists, pushed_left, removed, has, without}
use atlas_idp.Seal.Worker.{
  generate_pdf, sign_if, upload, push_to_dlq, retry_or_dlq, push_result, remove_from_processing,
  object_key, fail_job, failed_result, process_document, process, job_context, max_job_retries,
}
use atlas_idp.Seal.Worker.Settle.{dropped, completing, failing, judge, judge_document}

-- A job that will be tried again or that an operator can find.
abbrev pub survives : String → Lists → Bool
survives job q = has job (q pending_queue) || has job (q dlq_queue)

completing≢failing : {A : Type 0} {i j : A} {e : String} → ¬ (completing i ≡ failing j e)
completing≢failing h = cc

dropped≢failing : {A : Type 0} {j : A} {e : String} → ¬ (dropped ≡ failing j e)
dropped≢failing h = cc

or_true : (b : Bool) → (b || true) ≡ true
or_true b = ground arith

module _ (p : Platform) (l : PlatformLaws p) (job : String)
    (accepts : (w : p.World) → (p.l_push dlq_queue job w).0 ≡ none) where
  push_to_dlq-survives : (w : p.World) → survives job (l.lists (push_to_dlq p job w).1) ≡ true
  unfolding push_to_dlq remove_from_processing removed pushed_left
  push_to_dlq-survives w =
      let w' = (p.l_push dlq_queue job w).1 in
      elim (l.l_rem_any processing_queue job w') [
        | inl same ↦ rw (same, l.l_push_done dlq_queue job w (accepts w), eq_refl job) (or_true _)
        | inr gone ↦ rw (gone, l.l_push_done dlq_queue job w (accepts w), eq_refl job) (or_true _)
      ]

  pushed-survives :
      (w : p.World)
      → (p.l_push pending_queue job w).0 ≡ none
      → survives job (l.lists (p.l_push pending_queue job w).1) ≡ true
  unfolding pushed_left
  pushed-survives w done = rw (l.l_push_done pending_queue job w done, eq_refl job)

  retry_or_dlq-survives : (w : p.World) → survives job (l.lists (retry_or_dlq p job w).1) ≡ true
  unfolding retry_or_dlq
  retry_or_dlq-survives w =
      let w' = (p.l_len processing_queue w).1 in
      elim (Result-cases ((p.l_len processing_queue w).0)) [
        | inl (e, bad) ↦ rw (retry_or_dlq, ◌>>=◌, bad) (push_to_dlq-survives w')
        | inr (n, counted) ↦ elim (Bool-cases (leb max_job_retries n)) [
          | inl spent ↦ rw (retry_or_dlq, ◌>>=◌, counted, spent) (push_to_dlq-survives w')
          | inr left ↦ elim (Option-cases ((p.l_push pending_queue job w').0)) [
            | inl done ↦ rw (retry_or_dlq, ◌>>=◌, counted, left, done) (pushed-survives w' done)
            | inr (e, bad) ↦
                rw (retry_or_dlq, ◌>>=◌, counted, left, bad)
                  (push_to_dlq-survives (p.l_push pending_queue job w').1)
          ]
        ]
      ]

module _ (p : Platform) (signer : Option p.Signer) (job : String) where
  reported : p.Ctx → p.Uuid → String → p.World → p.World
  reported ctx id e w = (push_result p ctx (failed_result p id e) w).1

  -- a failing job is reported, in some way, and then handed to `retryOrDLQ`
  process_document-failing :
      (ctx : p.Ctx) (id : p.Uuid) (text : String) (w : p.World) {id' : p.Uuid} {e : String}
      → judge_document p signer id text w ≡ failing id' e
      → (w' : p.World) × (process_document p signer ctx job id text w ≡ retry_or_dlq p job w')
  unfolding process_document fail_job reported
  process_document-failing ctx id text w h = elim (Bool-cases (str_eq text "")) [
    | inl empty ↦ (reported ctx id "empty input text" w, rw (empty, process_document))
    | inr given ↦ elim (Result-cases (generate_pdf p text)) [
      | inl (e, bad) ↦
          (reported ctx id ("pdf generation: " ++ e) w, rw (given, bad, process_document))
      | inr (pdf, made) ↦ elim (Result-cases (sign_if p signer pdf)) [
        | inl (e, bad) ↦
            (reported ctx id ("pdf sign: " ++ e) w, rw (given, made, bad, process_document))
        | inr (signed, done) ↦ elim (Option-cases ((upload p (object_key p id) signed w).0)) [
          | inl stored ↦ absurd (completing≢failing (rw (given, made, done, stored) at h))
          | inr (e, bad) ↦ (
            reported ctx id ("upload: " ++ e) (upload p (object_key p id) signed w).1,
            rw (given, made, done, bad, process_document, ◌>>=◌),
          )
        ]
      ]
    ]
  ]

  process-failing :
      (ctx : p.Ctx) (w : p.World) {id : p.Uuid} {e : String}
      → judge p signer job w ≡ failing id e
      → (w' : p.World) × (process p signer ctx job w ≡ retry_or_dlq p job w')
  unfolding process judge
  process-failing ctx w h = elim (Result-cases (p.unmarshal_job job)) [
    | inl (e, bad) ↦ absurd (dropped≢failing (rw (bad, judge) at h))
    | inr (msg, read) ↦ elim (Result-cases (p.parse_uuid msg.document_id)) [
      | inl (e, bad) ↦ absurd (dropped≢failing (rw (read, bad, judge) at h))
      | inr (id, named) ↦
          let (w', same) =
            process_document-failing (job_context p ctx msg) id msg.input_text w
              (rw (read, named, judge) at h) in
          (w', rw (read, named, process) same)
    ]
  ]

  -- If the dead letter list accepts the job, a job that fails is on the pending list or on the dead
  -- letter list after `process`, whatever else Redis refuses or loses.
  pub failed_job-survives :
      (l : PlatformLaws p) (accepts : (w : p.World) → (p.l_push dlq_queue job w).0 ≡ none)
      (ctx : p.Ctx) (w : p.World) (id : p.Uuid) (e : String)
      → judge p signer job w ≡ failing id e
      → survives job (l.lists (process p signer ctx job w).1) ≡ true
  failed_job-survives l accepts ctx w id e h =
      let (w', same) = process-failing ctx w h in rw same (retry_or_dlq-survives p l job accepts w')

has-without : (v : String) (xs : List String) → has v (without v xs) ≡ false
unfolding without
has-without v [] = refl
has-without v (x ∷ xs) = ground (arith, has-without v xs)

-- If the dead letter list refuses a job and its removal works, `pushToDLQ` takes the job off the
-- processing list all the same, and it is on the pending or the dead letter list only if it was
-- there before.
pub push_to_dlq-loses :
    (p : Platform) (l : PlatformLaws p) (job : String) (w : p.World) (e : String)
    → (p.l_push dlq_queue job w).0 ≡ some e
    → l.lists (p.l_push dlq_queue job w).1 ≡ l.lists w
    → (p.l_rem processing_queue job (p.l_push dlq_queue job w).1).0 ≡ none
    → (survives job (l.lists (push_to_dlq p job w).1) ≡ survives job (l.lists w))
      × (has job (l.lists (push_to_dlq p job w).1 processing_queue) ≡ false)
unfolding push_to_dlq remove_from_processing removed
push_to_dlq-loses p l job w e refused same done =
    let gone = l.l_rem_done processing_queue job (p.l_push dlq_queue job w).1 done in
    (rw (gone, same) refl, rw (gone, same) (has-without job (l.lists w processing_queue)))
