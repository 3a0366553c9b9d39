-- ===== src/Tests/Memory/Api.antt =====
-- The API's theorems on the platform in memory.
use Prim.Native.Nat.{ℕ}
use Prim.Native.String.{String}
use atlas_idp.Common.{
  ◌≡◌, ◌≢◌, ◌⊎◌, refl, true, false, none, some, List, [], ◌∷◌, str_eq, ok, if◌then◌else◌,
}
use atlas_idp.Seal.Messages.{JobMessage, ResultMessage, Document, pending_queue, results_queue}
use atlas_idp.Seal.Platform.{Platform}
use atlas_idp.Seal.Platform.Laws.{PlatformLaws, Lists}
use atlas_idp.Seal.Platform.Database.{DatabaseLaws}
use atlas_idp.Seal.Worker.{
  process, process_document, generate_pdf, sign_if, sign, upload, upload_from, complete_job,
  push_result, remove_from_processing,
}
use atlas_idp.Seal.Worker.Settle.{judge}
use atlas_idp.Seal.Api.{
  create_document, created_body, url_body, get_document, get_download_url, verify_document,
  consume_round, consume,
}
use atlas_idp.Seal.Api.Create.{create_document-queues, create_document-strands}
use atlas_idp.Seal.Api.Read.{verify-agrees-download, download-code}
use atlas_idp.Seal.Api.Consume.{consume-last_wins}
use atlas_idp.Seal.EndToEnd.{process-consume-download}
use atlas_idp.Tests.Codec.{job_written, result_written}
use atlas_idp.Tests.Memory.{
  World, Setup, memory, memory-Laws, memory-Tables, memory-IsServing, memory-RoundTrips, accepting,
  accepting-IsReachable, fresh,
}

abbrev toy : Platform
toy = memory (accepting true)

abbrev deaf_setup : Setup
deaf_setup = record { refuses_right = true; refuses_left = λ _. false; store_up = true }

abbrev deaf : Platform
deaf = memory deaf_setup

abbrev laws : PlatformLaws toy
laws = memory-Laws (accepting true)

abbrev tables : DatabaseLaws toy laws
tables = memory-Tables (accepting true)

abbrev results_held : List String → Lists
results_held results k = if str_eq k results_queue then results else []

abbrev world : List String → List (Document ℕ) → World
world results table = record {
  lists = results_held results;
  objects = λ _. none;
  table = table;
  faults = 0;
}

abbrev doc_0 : Document ℕ
doc_0 = fresh 0 "hello"

abbrev doc_1 : Document ℕ
doc_1 = fresh 1 "bye"

abbrev done_1 : ResultMessage
done_1 = record {
  document_id = "i";
  status = "completed";
  s3_path = "i.pdf";
  error = "";
  trace_parent = "";
}

abbrev failed_1 : ResultMessage
failed_1 = record {
  document_id = "i";
  status = "failed";
  s3_path = "";
  error = "upload";
  trace_parent = "";
}

create_document-queues_example :
    let w = world [] (doc_0 ∷ []) in
    let w' = (create_document toy "" "bye" w).1 in
    (id : ℕ) × (job : String) × (m : JobMessage) × (doc : Document ℕ) × ((create_document toy ""
        "bye" w).0
      ≡ record { code = 201; body = created_body id })
    × (tables.documents w id ≡ none)
    × (tables.documents w' id ≡ some doc)
    × (doc.status ≡ "pending")
    × (doc.input_text ≡ "bye")
    × ((other : ℕ) → other ≢ id → tables.documents w' other ≡ tables.documents w other)
    × (laws.lists w' pending_queue ≡ job ∷ [])
    × (toy.unmarshal_job job ≡ ok m)
    × (toy.parse_uuid m.document_id ≡ ok id)
    × (m.input_text ≡ "bye")
unfolding memory-Laws
create_document-queues_example =
    create_document-queues toy laws tables (memory-RoundTrips (accepting true))
      (λ m. (job_written m, refl)) (λ k v w. refl) "" "bye" "bye" (world [] (doc_0 ∷ [])) refl refl
      (1, refl)

create_document-strands_example :
    let w = world [] [] in
    let w' = (create_document deaf "" "bye" w).1 in
    (id : ℕ) × (doc : Document ℕ) × ((create_document deaf "" "bye" w).0
      ≡ record { code = 201; body = created_body id })
    × ((memory-Tables deaf_setup).documents w' id ≡ some doc)
    × (doc.status ≡ "pending")
    × ((memory-Laws deaf_setup).lists w' ≡ (memory-Laws deaf_setup).lists w)
create_document-strands_example =
    create_document-strands deaf (memory-Laws deaf_setup) (memory-Tables deaf_setup) "" "bye" "bye"
      (world [] []) refl refl (0, refl) (λ k v u. ("refused", refl, refl))

verify-agrees-download_example :
    let w = world [] (doc_0 ∷ []) in
    ((verify_document toy "" w).0.code ≡ (get_download_url toy "http://s3" "" w).0.code)
    × (((get_document toy "" w).0.code ≡ 200)
        ⊎ ((get_download_url toy "http://s3" "" w).0.code ≡ (get_document toy "" w).0.code))
verify-agrees-download_example = verify-agrees-download toy "http://s3" "" (world [] (doc_0 ∷ []))

download-code_example :
    let w = world [] (doc_0 ∷ []) in
    ((get_download_url toy "http://s3" "" w).0.code ≡ 409)
    × (tables.documents (get_download_url toy "http://s3" "" w).1 ≡ tables.documents w)
unfolding memory-Tables
download-code_example =
    download-code toy laws tables (memory-IsServing (accepting true)) "http://s3" ""
      (world [] (doc_0 ∷ []))

consume-last_wins_example :
    let w = world (result_written failed_1 ∷ result_written done_1 ∷ []) (doc_0 ∷ doc_1 ∷ []) in
    (doc' : Document ℕ) × (tables.documents (consume toy 2 w).1 1 ≡ some doc')
    × (doc'.status ≡ "completed")
    × (doc'.s3_path ≡ "i.pdf")
    × (doc'.error ≡ "")
    × (doc'.id ≡ 1)
    × (doc'.input_text ≡ "bye")
    × (laws.lists (consume toy 2 w).1 results_queue ≡ [])
unfolding memory-Laws memory-Tables
consume-last_wins_example =
    consume-last_wins toy laws tables (memory-IsServing (accepting true)) (result_written failed_1)
      failed_1 ((result_written done_1, done_1) ∷ []) [] 1 doc_1
      (world (result_written failed_1 ∷ result_written done_1 ∷ []) (doc_0 ∷ doc_1 ∷ []))
      (refl, refl) (λ u. refl) (((refl, refl), (λ u. refl)), tt) refl refl

abbrev job : String
job = job_written (record { document_id = "i"; input_text = "bye"; trace_parent = "" })

process-consume-download_example :
    (get_download_url toy "http://s3" "i"
      (consume_round toy (process toy (some tt) "" job (world [] (doc_0 ∷ doc_1 ∷ []))).1).1).0
    ≡ record { code = 200; body = url_body "http://s3/seal-outputs/i.pdf" }
unfolding memory-Laws memory-Tables judge generate_pdf sign_if sign upload upload_from process
    process_document complete_job push_result remove_from_processing
process-consume-download_example =
    process-consume-download toy laws (accepting-IsReachable true) tables
      (memory-IsServing (accepting true)) (memory-RoundTrips (accepting true)) (some tt) "" job 1
      doc_1 "http://s3" (world [] (doc_0 ∷ doc_1 ∷ [])) refl refl refl (λ u. refl)
