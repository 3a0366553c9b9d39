-- ===== src/Seal/Worker/Bound.antt =====
-- How long the processing list of apps/seal/seal-worker/internal/worker.go can grow when Redis
-- answers every command and one worker alone uses it: no other worker and no other client changes
-- the lists.
use atlas_idp.Common.{
  ℕ, zero, suc, ◌≤◌, ◌≡◌, ◌≢◌, ◌⊎◌, refl, ap, String, Option, List, [], ◌∷◌, ◌++◌, length, eq_refl,
  arith, Bool-cases, inl, inr,
}
use atlas_idp.Seal.Messages.{pending_queue, processing_queue}
use atlas_idp.Seal.Platform.{Platform}
use atlas_idp.Seal.Platform.Laws.{
  PlatformLaws, IsReachable, Lists, moved, pushed_right, pushed_left, removed, without,
}
use atlas_idp.Seal.Worker.{process, run, running, stopped, broken}
use atlas_idp.Seal.Worker.Settle.{
  Verdict, dropped, failing, completing, judge, result_context, settle, process-settles,
}

length-without : (v : String) (xs : List String) → length (without v xs) ≤ length xs
unfolding without
length-without v [] = ground arith
length-without v (x ∷ xs) = ground (arith, length-without v xs)

-- taking out what was appended
length-without-last :
    (v : String) (xs : List String) → length (without v (xs ++ v ∷ [])) ≤ length xs
unfolding without
length-without-last v [] = ground (arith, eq_refl v)
length-without-last v (x ∷ xs) = ground (arith, length-without-last v xs)

length-append : (v : String) (xs : List String) → length (xs ++ v ∷ []) ≡ suc (length xs)
length-append v [] = refl
length-append v (x ∷ xs) = ap suc (length-append v xs)

List-cases :
    (xs : List String) → (xs ≡ []) ⊎ ((x : String) × (rest : List String) × (xs ≡ x ∷ rest))
List-cases [] = inl refl
List-cases (x ∷ rest) = inr (x, rest, refl)

running≢broken : (e : String) → running ≢ broken e
running≢broken e h = cc

stopped≢broken : (e : String) → stopped ≢ broken e
stopped≢broken e h = cc

-- The processing list has at most two entries.
abbrev pub IsShort : Lists → Type 0
IsShort q = length (q processing_queue) ≤ 2

module _ (p : Platform) (l : PlatformLaws p) (r : IsReachable p l) where
  settle-IsShort :
      (ctx : p.Ctx) (job : String) (v : Verdict p.Uuid) (rest : List String) (q : Lists)
      → IsShort q
      → IsShort (settle p l r ctx job v (moved pending_queue processing_queue job rest q))
  unfolding moved pushed_right pushed_left removed
  settle-IsShort ctx job dropped rest q h =
      ground (arith, length-without-last job (q processing_queue))
  settle-IsShort ctx job (completing id) rest q h =
      ground (arith, length-without-last job (q processing_queue))
  settle-IsShort ctx job (failing id e) rest q h =
      ground (
        arith,
        length-without-last job (q processing_queue),
        length-append job (q processing_queue),
      )

  round-IsShort :
      (signer : Option p.Signer) (ctx : p.Ctx) (job : String) (rest : List String) (w : p.World)
      → l.lists w pending_queue ≡ job ∷ rest
      → IsShort (l.lists w)
      → IsShort
          (l.lists (process p signer ctx job (p.bl_move pending_queue processing_queue w).1).1)
  round-IsShort signer ctx job rest w h short =
      let w' = (p.bl_move pending_queue processing_queue w).1 in
      let (rest', held, shifted) =
        l.bl_move_got pending_queue processing_queue job w
          (r.bl_move_answers pending_queue processing_queue job rest w h) in
      rw (process-settles p l r signer ctx job w', shifted)
        (settle-IsShort (result_context p ctx job) job (judge p signer job w') rest' (l.lists w)
          short)

  -- When one worker alone uses Redis, Redis answers every command and no more than two jobs are on
  -- the processing list when the worker starts, then after any number of rounds of `Run`, whatever
  -- the jobs and however each of them ends, no more than two jobs are on it, and `Run` has not
  -- ended with an error.
  pub run-IsShort :
      (n : ℕ) (signer : Option p.Signer) (ctx : p.Ctx) (w : p.World)
      → IsShort (l.lists w)
      → IsShort (l.lists (run p n signer ctx w).1)
        × ((e : String) → (run p n signer ctx w).0 ≢ broken e)
  unfolding run
  run-IsShort zero signer ctx w short = (short, λ e h. running≢broken e h)
  run-IsShort (suc n) signer ctx w short =
      let w₁ = (p.is_done ctx w).1 in
      let w₂ = (p.bl_move pending_queue processing_queue w₁).1 in
      let short₁ : IsShort (l.lists w₁) = rw l.is_done_keeps short in
      elim (Bool-cases ((p.is_done ctx w).0)) [
        | inl done ↦ rw (done, run) (short₁, λ e h. stopped≢broken e h)
        | inr alive ↦ elim (List-cases (l.lists w₁ pending_queue)) [
          | inl empty ↦
              let waited = r.bl_move_waits pending_queue processing_queue w₁ empty in
              rw (alive, waited, run)
                (run-IsShort n signer ctx w₂
                  (rw (l.bl_move_nil pending_queue processing_queue w₁ waited) short₁))
          | inr (job, rest, held) ↦
              rw (alive, r.bl_move_answers pending_queue processing_queue job rest w₁ held, run)
                (run-IsShort n signer ctx (process p signer ctx job w₂).1
                  (round-IsShort signer ctx job rest w₁ held short₁))
        ]
      ]
