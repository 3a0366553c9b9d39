-- ===== src/Seal/Platform/Database.antt =====
-- The documented behaviour of PostgreSQL on the table of documents (the table is that of
-- apps/seal/seal-api/internal/migrations/001_create_documents.sql), of BLPOP, and of JSON and uuid on what
-- they wrote themselves, as hypotheses.
use atlas_idp.Common.{String, ◌≡◌, ◌≢◌, Option, none, some, List, ◌∷◌, [], ok}
use atlas_idp.Seal.Messages.{JobMessage, ResultMessage, Document}
use atlas_idp.Seal.Platform.{Platform, got, row, no_rows}
use atlas_idp.Seal.Platform.Laws.{PlatformLaws}

pub record DatabaseLaws (p : Platform) (l : PlatformLaws p) : Type 0 where
  -- what the table holds
  pub documents : p.World → p.Uuid → Option (Document p.Uuid)
  -- the defaults of the table: a new row is pending, with no path and no error
  pub insert_done :
      (text : String) (w : p.World) (id : p.Uuid)
      → (p.insert_document text w).0 ≡ ok id
      → (documents w id ≡ none)
        × (d : Document p.Uuid) × (documents (p.insert_document text w).1 id ≡ some d)
        × (d.id ≡ id)
        × (d.status ≡ "pending")
        × (d.input_text ≡ text)
        × (d.s3_path ≡ "")
        × (d.error ≡ "")
  pub insert_other :
      (text : String) (w : p.World) (id other : p.Uuid)
      → (p.insert_document text w).0 ≡ ok id
      → other ≢ id
      → documents (p.insert_document text w).1 other ≡ documents w other
  pub insert_keeps :
      (text : String) (w : p.World) → l.lists (p.insert_document text w).1 ≡ l.lists w
  pub select_keeps :
      (id : p.Uuid) (w : p.World) → documents (p.select_document id w).1 ≡ documents w
  pub update_done :
      (id : p.Uuid) (status s3_path e : String) (w : p.World) (d : Document p.Uuid)
      → (p.update_document id status s3_path e w).0 ≡ none
      → documents w id ≡ some d
      → (now : String) × (documents (p.update_document id status s3_path e w).1 id
          ≡ some (record d { status = status; s3_path = s3_path; error = e; updated_at = now }))
  pub update_other :
      (id : p.Uuid) (status s3_path e : String) (w : p.World) (other : p.Uuid)
      → other ≢ id
      → documents (p.update_document id status s3_path e w).1 other ≡ documents w other
  pub update_keeps :
      (id : p.Uuid) (status s3_path e : String) (w : p.World)
      → l.lists (p.update_document id status s3_path e w).1 ≡ l.lists w
  pub r_push_apart : (k v : String) (w : p.World) → documents (p.r_push k v w).1 ≡ documents w
  pub bl_pop_apart : (k : String) (w : p.World) → documents (p.bl_pop k w).1 ≡ documents w

-- A database that answers every query, and a Redis server that answers BLPOP. What is written may
-- be refused, as a text that is too long for its column is.
pub record IsServing (p : Platform) (l : PlatformLaws p) (d : DatabaseLaws p l) : Type 0 where
  pub select_found :
      (id : p.Uuid) (w : p.World) (doc : Document p.Uuid)
      → d.documents w id ≡ some doc
      → (p.select_document id w).0 ≡ row doc
  pub select_missing :
      (id : p.Uuid) (w : p.World) → d.documents w id ≡ none → (p.select_document id w).0 ≡ no_rows
  pub bl_pop_answers :
      (k v : String) (rest : List String) (w : p.World)
      → l.lists w k ≡ v ∷ rest
      → (p.bl_pop k w).0 ≡ got (k ∷ v ∷ [])

-- What JSON and uuid write they read back.
pub record RoundTrips (p : Platform) : Type 0 where
  pub job_text : (m : JobMessage) (s : String) → p.marshal_job m ≡ ok s → p.unmarshal_job s ≡ ok m
  pub result_text :
      (m : ResultMessage) (s : String) → p.marshal_result m ≡ ok s → p.unmarshal_result s ≡ ok m
  pub uuid_read : (id : p.Uuid) → p.parse_uuid (p.uuid_text id) ≡ ok id
