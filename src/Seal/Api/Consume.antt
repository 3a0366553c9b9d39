-- ===== src/Seal/Api/Consume.antt =====
-- The background consumer of apps/seal/seal-api/cmd/api/main.go: what it makes of the results,
-- and a document's way from the worker to its download address.
use atlas_idp.Common.{
  suc, ◌≡◌, ◌≢◌, refl, ap, ◌∙◌, String, none, some, List, [], ◌∷◌, ◌++◌, map, length, All, ok,
  ◌>>=◌,
}
use atlas_idp.Seal.Messages.{ResultMessage, Document, results_queue}
use atlas_idp.Seal.Platform.{Platform}
use atlas_idp.Seal.Platform.Laws.{PlatformLaws, update}
use atlas_idp.Seal.Platform.Database.{DatabaseLaws, IsServing}
use atlas_idp.Seal.Api.{update_status, pop_result, apply_result, consume_round, consume}

module _ (p : Platform) (l : PlatformLaws p) (d : DatabaseLaws p l) (s : IsServing p l d) where
  -- A text on the results list that says `m` of the document `id`.
  abbrev pub Says : String → p.Uuid → ResultMessage → Type 0
  Says text id m = (p.unmarshal_result text ≡ ok m) × (p.parse_uuid m.document_id ≡ ok id)

  -- The row `doc` after the result `m`, but for its time of change.
  abbrev pub after : Document p.Uuid → ResultMessage → String → Document p.Uuid
  after doc m now = record doc {
    status = m.status;
    s3_path = m.s3_path;
    error = m.error;
    updated_at = now;
  }

  -- The database carries out the UPDATE of the document with that result.
  abbrev pub IsWritten : p.Uuid → ResultMessage → Type 0
  IsWritten id m = (u : p.World) → (p.update_document id m.status m.s3_path m.error u).0 ≡ none

  -- One round of the consumer takes the first result and writes it to its document; other documents
  -- stay as they are.
  pub consume_round-applies :
      (text : String) (rest : List String) (id : p.Uuid) (m : ResultMessage) (doc : Document p.Uuid)
      (w : p.World)
      → l.lists w results_queue ≡ text ∷ rest
      → Says text id m
      → IsWritten id m
      → d.documents w id ≡ some doc
      → (now : String) × (d.documents (consume_round p w).1 id ≡ some (after doc m now))
        × (l.lists (consume_round p w).1 results_queue ≡ rest)
        × ((other : p.Uuid)
            → other ≢ id
            → d.documents (consume_round p w).1 other ≡ d.documents w other)
  unfolding consume_round pop_result apply_result update_status update
  consume_round-applies text rest id m doc w held (reads, names) kept found =
      let w₁ = (p.bl_pop results_queue w).1 in
      let answered = s.bl_pop_answers results_queue text rest w held in
      let (v, rest', items, held', shrunk) =
        l.bl_pop_got results_queue w (results_queue ∷ text ∷ []) answered in
      let tails : rest' ≡ rest = cc (held, held') in
      let same = d.bl_pop_apart results_queue w in
      let (now, written) =
        d.update_done id m.status m.s3_path m.error w₁ doc (kept w₁) (rw same found) in
      rw (consume_round, pop_result, ◌>>=◌, answered, apply_result, reads, names)
        (
          now,
          written,
          rw (d.update_keeps id m.status m.s3_path m.error w₁, shrunk) tails,
          λ other apart.
              d.update_other id m.status m.s3_path m.error w₁ other apart ∙ ap (λ f. f other) same,
        )

  abbrev pub last : ResultMessage → List (String × ResultMessage) → ResultMessage
  last m [] = m
  last m ((_, n) ∷ more) = last n more

  abbrev pub texts : List (String × ResultMessage) → List String
  texts = map (λ t. t.0)

  -- If Redis answers BLPOP and the database carries out the UPDATE of the document with each of
  -- these results, then after the consumer has taken a sequence of readable results for one
  -- document of the table from the head of the list, the document has the status, the path and the
  -- error of the last of them, its identifier and text are unchanged, and the list holds what was
  -- behind them.
  pub consume-last_wins :
      (t : String) (m : ResultMessage) (more : List (String × ResultMessage)) (rest : List String)
      (id : p.Uuid) (doc : Document p.Uuid) (w : p.World)
      → Says t id m
      → IsWritten id m
      → All (λ r. Says r.0 id r.1 × IsWritten id r.1) more
      → l.lists w results_queue ≡ t ∷ (texts more ++ rest)
      → d.documents w id ≡ some doc
      → (doc' : Document p.Uuid) × (d.documents (consume p (suc (length more)) w).1 id ≡ some doc')
        × (doc'.status ≡ (last m more).status)
        × (doc'.s3_path ≡ (last m more).s3_path)
        × (doc'.error ≡ (last m more).error)
        × (doc'.id ≡ doc.id)
        × (doc'.input_text ≡ doc.input_text)
        × (l.lists (consume p (suc (length more)) w).1 results_queue ≡ rest)
  unfolding consume
  consume-last_wins t m [] rest id doc w says kept _ held found =
      let (now, written, shrunk, _) =
        consume_round-applies t rest id m doc w held says kept found in
      (after doc m now, written, refl, refl, refl, refl, refl, shrunk)
  consume-last_wins t m ((t', n) ∷ more) rest id doc w says kept ((says', kept'), all) held found =
      let (now, written, shrunk, _) =
        consume_round-applies t (t' ∷ (texts more ++ rest)) id m doc w held says kept found in
      consume-last_wins t' n more rest id (after doc m now) (consume_round p w).1 says' kept' all
        shrunk written
