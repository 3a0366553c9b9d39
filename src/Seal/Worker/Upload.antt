-- ===== src/Seal/Worker/Upload.antt =====
-- `Upload` of apps/seal/seal-worker/internal/storage.go: the attempts that it makes.
use atlas_idp.Common.{
  ℕ, zero, suc, ◌*◌, ◌^◌, ◌≡◌, ◌⊎◌, ◌↔◌, String, Option, none, some, Bytes, arith,
}
use Prim.Native.String.{◌++◌}
use atlas_idp.Seal.Platform.{Platform}
use atlas_idp.Seal.Platform.Laws.{PlatformLaws}
use atlas_idp.Seal.Worker.{upload, output_bucket}

module _ (p : Platform) (key : String) (pdf : Bytes) where
  -- The world before attempt i, when those before it failed.
  abbrev pub before : ℕ → p.World → p.World
  before zero w = w
  before (suc i) w = (p.sleep (1000 * 2 ^ i) (p.put_object output_bucket key pdf (before i w)).1).1

  abbrev pub attempt : ℕ → p.World → Option String
  attempt i w = (p.put_object output_bucket key pdf (before i w)).0

  -- `Upload` succeeds exactly when one of three attempts does, where the second comes a second
  -- after the first and the third two seconds after the second.
  pub upload_iff :
      (w : p.World)
      → ((upload p key pdf w).0 ≡ none)
        ↔ ((attempt 0 w ≡ none) ⊎ ((attempt 1 w ≡ none) ⊎ (attempt 2 w ≡ none)))
  unfolding upload
  upload_iff w = ground arith

  -- When all three attempts of `Upload` fail, the error is that of the last, and the world is the
  -- one after three attempts and their three pauses, of one, two and four seconds.
  pub upload_gives_up :
      (w : p.World) (e₀ e₁ e₂ : String)
      → attempt 0 w ≡ some e₀
      → attempt 1 w ≡ some e₁
      → attempt 2 w ≡ some e₂
      → upload p key pdf w ≡ (some ("upload failed after 3 retries: " ++ e₂), before 3 w)
  unfolding upload
  upload_gives_up w e₀ e₁ e₂ h₀ h₁ h₂ = ground arith

  -- After a successful `Upload` the store holds the data under the key.
  upload-stores :
      (l : PlatformLaws p) (w : p.World)
      → (upload p key pdf w).0 ≡ none
      → l.objects (upload p key pdf w).1 key ≡ some pdf
  unfolding upload
  upload-stores l w h = ground (
    arith,
    l.put_object_done output_bucket key pdf (before 0 w),
    l.put_object_done output_bucket key pdf (before 1 w),
    l.put_object_done output_bucket key pdf (before 2 w),
  )

  -- `Upload` leaves the Redis lists alone.
  pub lists-upload : (l : PlatformLaws p) (w : p.World) → l.lists (upload p key pdf w).1 ≡ l.lists w
  unfolding upload
  lists-upload l w = ground (
    arith,
    l.put_object_keeps output_bucket key pdf (before 0 w),
    l.put_object_keeps output_bucket key pdf (before 1 w),
    l.put_object_keeps output_bucket key pdf (before 2 w),
    l.sleep_keeps 1000 (p.put_object output_bucket key pdf (before 0 w)).1,
    l.sleep_keeps 2000 (p.put_object output_bucket key pdf (before 1 w)).1,
    l.sleep_keeps 4000 (p.put_object output_bucket key pdf (before 2 w)).1,
  )
