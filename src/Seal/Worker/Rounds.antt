-- ===== src/Seal/Worker/Rounds.antt =====
-- The loop `Run` of apps/seal/seal-worker/internal/worker.go over several rounds, when Redis
-- answers every command: a sequence of good jobs, and one job that always fails.
use atlas_idp.Common.{
  ℕ, suc, ◌≡◌, refl, ◌∙◌, String, true, false, Option, List, [], ◌∷◌, ◌++◌, map, append_assoc,
  append-nil, length, All, eq_refl, leb,
}
use atlas_idp.Seal.Messages.{pending_queue, processing_queue, results_queue, dlq_queue}
use atlas_idp.Seal.Platform.{Platform}
use atlas_idp.Seal.Platform.Laws.{
  PlatformLaws, IsReachable, Lists, moved, pushed_right, pushed_left, removed, without,
}
use atlas_idp.Seal.Worker.{process, run, completed_result, failed_result}
use atlas_idp.Seal.Worker.Settle.{
  Verdict, failing, completing, judge, result_context, result_text, settle, process-settles,
}

-- The four lists hold what is named.
pub record Shows (q : Lists) (in_pending in_processing in_results in_dead : List String)
    : Type 0 where
  pub pending : q pending_queue ≡ in_pending
  pub processing : q processing_queue ≡ in_processing
  pub results : q results_queue ≡ in_results
  pub dead : q dlq_queue ≡ in_dead

without-three : (job : String) → without job (job ∷ job ∷ job ∷ []) ≡ []
unfolding without
without-three job = rw (eq_refl job)

module _ (p : Platform) (l : PlatformLaws p) (r : IsReachable p l) (signer : Option p.Signer)
    (ctx : p.Ctx) (open_ctx : (w : p.World) → (p.is_done ctx w).0 ≡ false) where
  -- the world after one round that takes a job
  round : String → p.World → p.World
  round job w =
      (process p signer ctx job (p.bl_move pending_queue processing_queue (p.is_done ctx w).1).1).1

  run-round :
      (n : ℕ) (job : String) (rest : List String) (w : p.World)
      → l.lists w pending_queue ≡ job ∷ rest
      → run p (suc n) signer ctx w ≡ run p n signer ctx (round job w)
  unfolding run round
  run-round n job rest w h = rw (
    run,
    open_ctx w,
    r.bl_move_answers pending_queue processing_queue job rest (p.is_done ctx w).1
        (rw l.is_done_keeps h),
  )

  lists-round :
      (job : String) (rest : List String) (v : Verdict p.Uuid) (w : p.World)
      → ((u : p.World) → judge p signer job u ≡ v)
      → l.lists w pending_queue ≡ job ∷ rest
      → l.lists (round job w)
        ≡ settle p l r
            (result_context p ctx job)
            job
            v
            (moved pending_queue processing_queue job rest (l.lists w))
  unfolding round
  lists-round job rest v w judged h =
      let w₁ = (p.is_done ctx w).1 in
      let w₂ = (p.bl_move pending_queue processing_queue w₁).1 in
      let same = l.is_done_keeps ctx w in
      let (rest', held, shifted) =
        l.bl_move_got pending_queue processing_queue job w₁
          (r.bl_move_answers pending_queue processing_queue job rest w₁ (rw same h)) in
      let tails : rest' ≡ rest = cc (held, same, h) in
      process-settles p l r signer ctx job w₂ ∙ rw (judged w₂, shifted, same, tails) refl

  pub text_of : String → p.Uuid → String
  text_of job id = result_text p l r (result_context p ctx job) (completed_result p id)

  good_round :
      (job : String) (id : p.Uuid) (rest results dead : List String) (w : p.World)
      → ((u : p.World) → judge p signer job u ≡ completing id)
      → Shows (l.lists w) (job ∷ rest) [] results dead
      → Shows (l.lists (round job w)) rest [] (results ++ text_of job id ∷ []) dead
  unfolding moved pushed_right removed text_of
  good_round job id rest results dead w judged s =
      rw (lists-round job rest (completing id) w judged s.pending) (record {
        pending = refl;
        processing = rw (s.processing, eq_refl job);
        results = rw s.results;
        dead = s.dead;
      })

  pub failure_of : String → p.Uuid → String → String
  failure_of job id e = result_text p l r (result_context p ctx job) (failed_result p id e)

  retried_round :
      (job : String) (id : p.Uuid) (e : String) (rest held results dead : List String) (w : p.World)
      → ((u : p.World) → judge p signer job u ≡ failing id e)
      → leb 3 (length (held ++ job ∷ [])) ≡ false
      → Shows (l.lists w) (job ∷ rest) held results dead
      → Shows
          (l.lists (round job w))
          (job ∷ rest)
          (held ++ job ∷ [])
          (results ++ failure_of job id e ∷ [])
          dead
  unfolding moved pushed_right pushed_left removed failure_of
  retried_round job id e rest held results dead w judged few s =
      rw (lists-round job rest (failing id e) w judged s.pending, s.processing, few)
        (record { pending = refl; processing = refl; results = rw s.results; dead = s.dead })

  last_round :
      (job : String) (id : p.Uuid) (e : String) (rest held results dead : List String) (w : p.World)
      → ((u : p.World) → judge p signer job u ≡ failing id e)
      → leb 3 (length (held ++ job ∷ [])) ≡ true
      → Shows (l.lists w) (job ∷ rest) held results dead
      → Shows
          (l.lists (round job w))
          rest
          (without job (held ++ job ∷ []))
          (results ++ failure_of job id e ∷ [])
          (job ∷ dead)
  unfolding moved pushed_right pushed_left removed failure_of
  last_round job id e rest held results dead w judged many s =
      rw (lists-round job rest (failing id e) w judged s.pending, s.processing, many)
        (record { pending = refl; processing = refl; results = rw s.results; dead = rw s.dead })

  -- Good jobs at the head of the pending list, with the identifiers that their messages name.
  abbrev IsGood : List (String × p.Uuid) → Type 0
  IsGood = All (λ j. (u : p.World) → judge p signer j.0 u ≡ completing j.1)

  abbrev job_texts : List (String × p.Uuid) → List String
  job_texts = map (λ j. j.0)

  -- When Redis answers every command and the context is open, `Run` takes jobs that complete in
  -- their order: after as many rounds as there are such jobs at the head of the pending list, that
  -- list holds what was behind them, the processing list is empty, and one completed result for
  -- each was appended in that order.
  pub run-completes :
      (jobs : List (String × p.Uuid)) (rest results dead : List String) (w : p.World)
      → IsGood jobs
      → Shows (l.lists w) (job_texts jobs ++ rest) [] results dead
      → Shows
          (l.lists (run p (length jobs) signer ctx w).1)
          rest
          []
          (results ++ map (λ j. text_of j.0 j.1) jobs)
          dead
  unfolding run
  run-completes [] rest results dead w good s = rw (append-nil results) s
  run-completes ((job, id) ∷ jobs) rest results dead w (judged, good) s =
      rw
        (
          run-round (length jobs) job (job_texts jobs ++ rest) w s.pending,
          ← append_assoc results (text_of job id ∷ []),
        )
        (run-completes jobs rest (results ++ text_of job id ∷ []) dead (round job w) good
          (good_round job id (job_texts jobs ++ rest) results dead w judged s))

  -- When Redis answers every command and the context is open, a job that always fails, taken when
  -- the processing list is empty, is at the head of the dead letter list after three rounds of
  -- `Run`, with three failed results appended, the processing list empty and the jobs behind it
  -- still pending.
  pub run-dead_letters :
      (job : String) (id : p.Uuid) (e : String) (rest results dead : List String) (w : p.World)
      → ((u : p.World) → judge p signer job u ≡ failing id e)
      → Shows (l.lists w) (job ∷ rest) [] results dead
      → let t = failure_of job id e in
        Shows
          (l.lists (run p 3 signer ctx w).1)
          rest
          []
          (((results ++ t ∷ []) ++ t ∷ []) ++ t ∷ [])
          (job ∷ dead)
  run-dead_letters job id e rest results dead w judged s =
      let t = failure_of job id e in
      let w₁ = round job w in
      let w₂ = round job w₁ in
      let s₁ = retried_round job id e rest [] results dead w judged refl s in
      let s₂ = retried_round job id e rest (job ∷ []) (results ++ t ∷ []) dead w₁ judged refl s₁ in
      let s₃ =
        last_round job id e rest (job ∷ job ∷ []) ((results ++ t ∷ []) ++ t ∷ []) dead w₂ judged
          refl s₂ in
      rw
        (
          run-round 2 job rest w s.pending,
          run-round 1 job rest w₁ s₁.pending,
          run-round 0 job rest w₂ s₂.pending,
        )
        (unfold run in (rw (without-three job) at s₃))
