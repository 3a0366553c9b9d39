-- ===== src/Seal/Messages.antt =====
-- The messages on the Redis lists: apps/seal/seal-worker/internal/worker.go, and the same types
-- in apps/seal/seal-api/internal/queue.go and cmd/api/main.go.
use atlas_idp.Common.{ℕ, String}

-- The keys of the Redis lists.
abbrev pub pending_queue : String
pending_queue = "seal:jobs"

abbrev pub processing_queue : String
processing_queue = "seal:processing"

abbrev pub results_queue : String
results_queue = "seal:results"

abbrev pub dlq_queue : String
dlq_queue = "seal:dlq"

-- An absent `traceparent` decodes to the empty text, and the empty one is not written.
pub record JobMessage : Type 0 where
  pub document_id : String
  pub input_text : String
  pub trace_parent : String

pub record ResultMessage : Type 0 where
  pub document_id : String
  pub status : String
  pub s3_path : String
  pub error : String
  pub trace_parent : String

-- A row of the table of documents: apps/seal/seal-api/internal/repository.go. The two times are
-- kept in the form in which they are written as JSON.
pub record Document (Uuid : Type 0) : Type 0 where
  pub id : Uuid
  pub status : String
  pub input_text : String
  pub s3_path : String
  pub file_size : ℕ
  pub error : String
  pub created_at : String
  pub updated_at : String
