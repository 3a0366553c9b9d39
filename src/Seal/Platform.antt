-- ===== src/Seal/Platform.antt =====
-- What the Seal programs call and do not implement: Redis (go-redis), the object store (minio-go),
-- the PDF and signature libraries, uuid, JSON, tracing and the clock. They are parameters. A call
-- that acts on the outside takes and returns the world; an error is its text.
pub mod Laws
pub mod Database
use atlas_idp.Common.{ℕ, String, Bool, Option, List, Bytes, Act, Result}
use atlas_idp.Seal.Messages.{JobMessage, ResultMessage, Document}

-- The answer of a blocking Redis call; `nil` is redis.Nil, the timeout.
pub data Reply (A : Type 0) : Type 0 where
  got : A → Reply A
  nil : Reply A
  failed : String → Reply A

-- The answer of a query for one row; `no_rows` is pgx.ErrNoRows.
pub data Query (A : Type 0) : Type 0 where
  row : A → Query A
  no_rows : Query A
  broken : String → Query A

pub record Platform : Type 1 where
  pub World : Type 0
  pub Ctx : Type 0
  pub Uuid : Type 0
  pub Signer : Type 0
  -- Redis: RPUSH, LPUSH and LREM 0 with a key and a value, LLEN, BLMOVE LEFT RIGHT, BLPOP
  pub r_push : String → String → Act World (Option String)
  pub l_push : String → String → Act World (Option String)
  pub l_rem : String → String → Act World (Option String)
  pub l_len : String → Act World (Result ℕ)
  pub bl_move : String → String → Act World (Reply String)
  pub bl_pop : String → Act World (Reply (List String))
  -- the object store: PutObject(bucket, key, data), MakeBucket, BucketExists
  pub put_object : String → String → Bytes → Act World (Option String)
  pub make_bucket : String → Act World (Option String)
  pub bucket_exists : String → Act World (Result Bool)
  -- PostgreSQL: the INSERT ... RETURNING id, the SELECT and the UPDATE of repository.go, a ping
  pub insert_document : String → Act World (Result Uuid)
  pub select_document : Uuid → Act World (Query (Document Uuid))
  pub update_document : Uuid → String → String → String → Act World (Option String)
  pub ping : Act World (Option String)
  -- time.Sleep, in milliseconds, and whether the context is cancelled
  pub sleep : ℕ → Act World (Unit {0})
  pub is_done : Ctx → Act World Bool
  -- gofpdf's output for a text
  pub render_pdf : String → Result Bytes
  -- digitorus/pdf: NewReader; digitorus/pdfsign: Sign
  pub read_pdf : Bytes → Result (Unit {0})
  pub sign_pdf : Signer → Bytes → Result Bytes
  -- google/uuid
  pub parse_uuid : String → Result Uuid
  pub uuid_text : Uuid → String
  -- encoding/json at the two message types
  pub unmarshal_job : String → Result JobMessage
  pub marshal_job : JobMessage → Result String
  pub unmarshal_result : String → Result ResultMessage
  pub marshal_result : ResultMessage → Result String
  -- encoding/json at the body of a request to create a document: its `text`
  pub decode_create : String → Result String
  -- OpenTelemetry: the propagator's Extract and Inject, and a new span's context
  pub extract : Ctx → String → Ctx
  pub inject : Ctx → Option String
  pub start_span : Ctx → String → Ctx
