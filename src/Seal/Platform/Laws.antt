-- ===== src/Seal/Platform/Laws.antt =====
-- The documented behaviour of the calls that the proofs rely on, as hypotheses. A command that
-- answers with an error may have been carried out or not: the connection can be lost in between.
use atlas_idp.Common.{
  ℕ, String, ◌≡◌, ◌⊎◌, ◌++◌, Option, none, some, List, [], ◌∷◌, Bytes, length, str_eq,
  if◌then◌else◌, ok, Bool, false, ◌||◌,
}
use atlas_idp.Seal.Platform.{Platform, got, nil}

-- What the Redis lists hold, by key.
abbrev pub Lists : Type 0
Lists = String → List String

unfoldable pub without : String → List String → List String
without v [] = []
without v (x ∷ xs) = let rest = without v xs in if str_eq x v then rest else x ∷ rest

unfoldable pub update : String → List String → Lists → Lists
update k xs l j = if str_eq k j then xs else l j

unfoldable pub pushed_right : String → String → Lists → Lists
unfolding update
pushed_right k v l = update k (l k ++ v ∷ []) l

unfoldable pub pushed_left : String → String → Lists → Lists
unfolding update
pushed_left k v l = update k (v ∷ l k) l

unfoldable pub removed : String → String → Lists → Lists
unfolding update without
removed k v l = update k (without v (l k)) l

unfoldable pub moved : String → String → String → List String → Lists → Lists
unfolding update
moved src dst v rest l = update dst (l dst ++ v ∷ []) (update src rest l)

pub record PlatformLaws (p : Platform) : Type 0 where
  -- what the outside holds, which the program cannot read but through the calls
  pub lists : p.World → Lists
  pub objects : p.World → String → Option Bytes
  pub r_push_done :
      (k v : String) (w : p.World)
      → (p.r_push k v w).0 ≡ none
      → lists (p.r_push k v w).1 ≡ pushed_right k v (lists w)
  pub l_push_done :
      (k v : String) (w : p.World)
      → (p.l_push k v w).0 ≡ none
      → lists (p.l_push k v w).1 ≡ pushed_left k v (lists w)
  pub l_rem_done :
      (k v : String) (w : p.World)
      → (p.l_rem k v w).0 ≡ none
      → lists (p.l_rem k v w).1 ≡ removed k v (lists w)
  pub l_rem_any :
      (k v : String) (w : p.World)
      → (lists (p.l_rem k v w).1 ≡ lists w) ⊎ (lists (p.l_rem k v w).1 ≡ removed k v (lists w))
  pub l_len_keeps : (k : String) (w : p.World) → lists (p.l_len k w).1 ≡ lists w
  pub l_len_counts :
      (k : String) (w : p.World) (n : ℕ) → (p.l_len k w).0 ≡ ok n → n ≡ length (lists w k)
  -- BLMOVE takes the first element of one list and appends it to another
  pub bl_move_got :
      (src dst v : String) (w : p.World)
      → (p.bl_move src dst w).0 ≡ got v
      → (rest : List String) × (lists w src ≡ v ∷ rest)
        × (lists (p.bl_move src dst w).1 ≡ moved src dst v rest (lists w))
  pub bl_move_nil :
      (src dst : String) (w : p.World)
      → (p.bl_move src dst w).0 ≡ nil
      → lists (p.bl_move src dst w).1 ≡ lists w
  pub bl_pop_got :
      (k : String) (w : p.World) (items : List String)
      → (p.bl_pop k w).0 ≡ got items
      → (v : String) × (rest : List String) × (items ≡ k ∷ v ∷ [])
        × (lists w k ≡ v ∷ rest)
        × (lists (p.bl_pop k w).1 ≡ update k rest (lists w))
  pub put_object_keeps :
      (b k : String) (d : Bytes) (w : p.World) → lists (p.put_object b k d w).1 ≡ lists w
  pub put_object_done :
      (b k : String) (d : Bytes) (w : p.World)
      → (p.put_object b k d w).0 ≡ none
      → objects (p.put_object b k d w).1 k ≡ some d
  pub is_done_keeps : (ctx : p.Ctx) (w : p.World) → lists (p.is_done ctx w).1 ≡ lists w
  pub sleep_keeps : (n : ℕ) (w : p.World) → lists (p.sleep n w).1 ≡ lists w

-- A Redis server that answers every command.
pub record IsReachable (p : Platform) (l : PlatformLaws p) : Type 0 where
  pub r_push_answers : (k v : String) (w : p.World) → (p.r_push k v w).0 ≡ none
  pub l_push_answers : (k v : String) (w : p.World) → (p.l_push k v w).0 ≡ none
  pub l_rem_answers : (k v : String) (w : p.World) → (p.l_rem k v w).0 ≡ none
  pub l_len_answers : (k : String) (w : p.World) → (n : ℕ) × ((p.l_len k w).0 ≡ ok n)
  pub bl_move_answers :
      (src dst v : String) (rest : List String) (w : p.World)
      → l.lists w src ≡ v ∷ rest
      → (p.bl_move src dst w).0 ≡ got v
  -- the answer at the end of the time to wait
  pub bl_move_waits :
      (src dst : String) (w : p.World) → l.lists w src ≡ [] → (p.bl_move src dst w).0 ≡ nil
  -- every result message can be written as JSON
  pub marshal_answers : (m : _) → (s : String) × (p.marshal_result m ≡ ok s)

-- Whether a list of texts has a text.
abbrev pub has : String → List String → Bool
has v [] = false
has v (x ∷ xs) = str_eq x v || has v xs
