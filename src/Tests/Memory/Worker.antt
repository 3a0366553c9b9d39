-- ===== src/Tests/Memory/Worker.antt =====
-- The worker's theorems on the platform in memory.
use Prim.Native.Nat.{ℕ}
use Prim.Native.String.{String}
use atlas_idp.Common.{
  ◌≤◌, ◌≡◌, ◌≢◌, ◌⊎◌, ◌↔◌, refl, arith, true, false, none, some, List, [], ◌∷◌, Bytes, codes,
  str_eq, if◌then◌else◌,
}
use atlas_idp.Seal.Messages.{pending_queue, processing_queue}
use atlas_idp.Seal.Platform.{Platform}
use atlas_idp.Seal.Platform.Laws.{Lists, has}
use atlas_idp.Seal.Worker.{
  upload, upload_from, process, push_to_dlq, run, broken, generate_pdf, sign_if, sign,
}
use atlas_idp.Seal.Worker.Upload.{attempt, upload_iff, upload_gives_up}
use atlas_idp.Seal.Worker.Settle.{judge, settle, result_context, process-settles}
use atlas_idp.Seal.Worker.Delivery.{survives, failed_job-survives, push_to_dlq-loses}
use atlas_idp.Seal.Worker.Bound.{IsShort, run-IsShort}
use atlas_idp.Seal.Worker.Rounds.{Shows, text_of, failure_of, run-completes, run-dead_letters}
use atlas_idp.Tests.Codec.{job_written}
use atlas_idp.Tests.Memory.{World, Setup, memory, memory-Laws, accepting, accepting-IsReachable}

abbrev steady : Platform
steady = memory (accepting true)

abbrev flaky : Platform
flaky = memory (accepting false)

abbrev refusing : Setup
refusing = record { refuses_right = false; refuses_left = λ _. true; store_up = true }

abbrev full : Platform
full = memory refusing

abbrev job : String
job = job_written (record { document_id = "ii"; input_text = "hello"; trace_parent = "" })

abbrev job' : String
job' = job_written (record { document_id = "i"; input_text = "bye"; trace_parent = "t" })

abbrev bad_job : String
bad_job = job_written (record { document_id = "ii"; input_text = ""; trace_parent = "" })

abbrev queues : List String → List String → Lists
queues jobs held k =
    if str_eq k pending_queue then jobs else if str_eq k processing_queue then held else []

abbrev world : ℕ → List String → List String → World
world faults jobs held = record {
  lists = queues jobs held;
  objects = λ _. none;
  table = [];
  faults = faults;
}

abbrev pdf : Bytes
pdf = codes "text"

upload_iff_example : ((upload flaky "i.pdf" pdf (world 2 [] [])).0 ≡ none) ↔ (
    (attempt flaky "i.pdf" pdf 0 (world 2 [] []) ≡ none)
    ⊎ ((attempt flaky "i.pdf" pdf 1 (world 2 [] []) ≡ none)
        ⊎ (attempt flaky "i.pdf" pdf 2 (world 2 [] []) ≡ none)))
upload_iff_example = upload_iff flaky "i.pdf" pdf (world 2 [] [])

upload_gives_up_example :
    upload flaky "i.pdf" pdf (world 3 [] [])
    ≡ (some "upload failed after 3 retries: store down", world 0 [] [])
upload_gives_up_example =
    upload_gives_up flaky "i.pdf" pdf (world 3 [] []) "store down" "store down" "store down" refl
      refl refl

process-settles_example :
    (memory-Laws (accepting false)).lists
      (process flaky (some tt) "" bad_job (world 0 [] (bad_job ∷ []))).1
    ≡ settle flaky
        (memory-Laws (accepting false))
        (accepting-IsReachable false)
        (result_context flaky "" bad_job)
        bad_job
        (judge flaky (some tt) bad_job (world 0 [] (bad_job ∷ [])))
        ((memory-Laws (accepting false)).lists (world 0 [] (bad_job ∷ [])))
process-settles_example =
    process-settles flaky (memory-Laws (accepting false)) (accepting-IsReachable false) (some tt) ""
      bad_job (world 0 [] (bad_job ∷ []))

failed_job-survives_example :
    survives job (
      (memory-Laws (accepting false)).lists
        (process flaky (some tt) "" job (world 3 [] (job ∷ []))).1)
    ≡ true
unfolding judge generate_pdf sign_if sign upload upload_from
failed_job-survives_example =
    failed_job-survives flaky (some tt) job (memory-Laws (accepting false)) (λ w. refl) ""
      (world 3 [] (job ∷ [])) 2 "upload: upload failed after 3 retries: store down" refl

push_to_dlq-loses_example :
    (survives job ((memory-Laws refusing).lists (push_to_dlq full job (world 0 [] (job ∷ []))).1)
      ≡ false)
    × (has job (
          (memory-Laws refusing).lists
            (push_to_dlq full job (world 0 [] (job ∷ []))).1
            processing_queue)
        ≡ false)
unfolding memory-Laws
push_to_dlq-loses_example =
    push_to_dlq-loses full (memory-Laws refusing) job (world 0 [] (job ∷ [])) "refused" refl refl
      refl

run-completes_example :
    Shows
      ((memory-Laws (accepting true)).lists
        (run steady 2 (some tt) "" (world 0 (job ∷ job' ∷ bad_job ∷ []) [])).1)
      (bad_job ∷ [])
      []
      (text_of steady
          (memory-Laws (accepting true))
          (accepting-IsReachable true)
          (some tt)
          ""
          (λ w. refl)
          job
          2
        ∷ text_of steady
            (memory-Laws (accepting true))
            (accepting-IsReachable true)
            (some tt)
            ""
            (λ w. refl)
            job'
            1
        ∷ [])
      []
unfolding memory-Laws judge generate_pdf sign_if sign upload upload_from
run-completes_example =
    run-completes steady (memory-Laws (accepting true)) (accepting-IsReachable true) (some tt) ""
      (λ w. refl) ((job, 2) ∷ (job', 1) ∷ []) (bad_job ∷ []) [] []
      (world 0 (job ∷ job' ∷ bad_job ∷ []) []) (λ u. refl, (λ u. refl, tt))
      (record { pending = refl; processing = refl; results = refl; dead = refl })

run-dead_letters_example :
    let t =
      failure_of flaky
        (memory-Laws (accepting false))
        (accepting-IsReachable false)
        none
        ""
        (λ w. refl)
        bad_job
        2
        "empty input text" in
    Shows
      ((memory-Laws (accepting false)).lists
        (run flaky 3 none "" (world 0 (bad_job ∷ job ∷ []) [])).1)
      (job ∷ [])
      []
      (t ∷ t ∷ t ∷ [])
      (bad_job ∷ [])
unfolding memory-Laws judge
run-dead_letters_example =
    run-dead_letters flaky (memory-Laws (accepting false)) (accepting-IsReachable false) none ""
      (λ w. refl) bad_job 2 "empty input text" (job ∷ []) [] [] (world 0 (bad_job ∷ job ∷ []) [])
      (λ u. refl) (record { pending = refl; processing = refl; results = refl; dead = refl })

two_at_most : 2 ≤ 2
two_at_most = ground arith

run-IsShort_example :
    IsShort (
      (memory-Laws (accepting true)).lists
        (run steady 4 (some tt) "" (world 0 (bad_job ∷ job ∷ []) (job ∷ job' ∷ []))).1)
    × ((e : String)
        → (run steady 4 (some tt) "" (world 0 (bad_job ∷ job ∷ []) (job ∷ job' ∷ []))).0 ≢ broken e)
unfolding memory-Laws
run-IsShort_example =
    run-IsShort steady (memory-Laws (accepting true)) (accepting-IsReachable true) 4 (some tt) ""
      (world 0 (bad_job ∷ job ∷ []) (job ∷ job' ∷ [])) two_at_most
