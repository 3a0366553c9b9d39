-- ===== src/Tests/Memory.antt =====
-- A platform in memory for the tests, and that it behaves as documented.
mod Worker
mod Api
mod Ui
use Prim.Native.Nat.{ℕ, zero, suc}
use Prim.Native.String.{String}
use atlas_idp.Common.{
  ◌≡◌, ◌≢◌, ◌⊎◌, inl, inr, refl, ap, Bool, true, false, Option, none, some, List, [], ◌∷◌, ◌++◌,
  Bytes, codes, length, str_eq, eq_refl, if◌then◌else◌, Result, ok, err, ◌==◌, arith,
}
use atlas_idp.Seal.Messages.{JobMessage, ResultMessage, Document}
use atlas_idp.Seal.Platform.{Platform, Reply, got, nil, Query, row, no_rows}
use atlas_idp.Seal.Platform.Laws.{
  Lists, PlatformLaws, IsReachable, update, without, pushed_right, pushed_left, removed, moved,
}
use atlas_idp.Seal.Platform.Database.{DatabaseLaws, IsServing, RoundTrips}
use atlas_idp.Tests.Codec.{
  job_written, job_read, job_read-written, result_written, result_read, result_read-written, unary,
  of_unary, of_unary-unary,
}

pub record World : Type 0 where
  pub lists : Lists
  pub objects : String → Option Bytes
  pub table : List (Document ℕ)
  pub faults : ℕ

-- Whether RPUSH and LPUSH onto a list are refused, and whether the store is always up; else it is
-- down for as many attempts as the world counts.
pub record Setup : Type 0 where
  pub refuses_right : Bool
  pub refuses_left : String → Bool
  pub store_up : Bool

abbrev set_object : String → Bytes → (String → Option Bytes) → String → Option Bytes
set_object k d f j = if str_eq k j then some d else f j

abbrev pub stored : String → Bytes → World → Option String × World
stored k d w = (none, record w { objects = set_object k d w.objects })

abbrev flaky_put : String → Bytes → ℕ → World → Option String × World
flaky_put k d zero w = stored k d w
flaky_put k d (suc n) w = (some "store down", record w { faults = n })

abbrev pub put : Setup → String → Bytes → ℕ → World → Option String × World
put s k d n w = if s.store_up then stored k d w else flaky_put k d n w

abbrev moved_from : String → String → List String → World → Reply String × World
moved_from src dst [] w = (nil, w)
moved_from src dst (v ∷ rest) w = (got v, record w { lists = moved src dst v rest w.lists })

abbrev popped_from : String → List String → World → Reply (List String) × World
popped_from k [] w = (nil, w)
popped_from k (v ∷ rest) w = (got (k ∷ v ∷ []), record w { lists = update k rest w.lists })

abbrev lookup : List (Document ℕ) → ℕ → Option (Document ℕ)
lookup [] i = none
lookup (d ∷ ds) zero = some d
lookup (d ∷ ds) (suc i) = lookup ds i

abbrev modify : List (Document ℕ) → ℕ → (Document ℕ → Document ℕ) → List (Document ℕ)
modify [] i f = []
modify (d ∷ ds) zero f = f d ∷ ds
modify (d ∷ ds) (suc i) f = d ∷ modify ds i f

abbrev pub fresh : ℕ → String → Document ℕ
fresh id text = record {
  id = id;
  status = "pending";
  input_text = text;
  s3_path = "";
  file_size = 0;
  error = "";
  created_at = "monday";
  updated_at = "monday";
}

abbrev pub found : Option (Document ℕ) → Query (Document ℕ)
found none = no_rows
found (some d) = row d

abbrev pub memory : Setup → Platform
memory s = record {
  World = World;
  Ctx = String;
  Uuid = ℕ;
  Signer = Unit {0};
  r_push = λ k v w.
      if s.refuses_right
      then (some "refused", w)
      else (none, record w { lists = pushed_right k v w.lists });
  l_push = λ k v w.
      if s.refuses_left k
      then (some "refused", w)
      else (none, record w { lists = pushed_left k v w.lists });
  l_rem = λ k v w. (none, record w { lists = removed k v w.lists });
  l_len = λ k w. (ok (length (w.lists k)), w);
  bl_move = λ src dst w. moved_from src dst (w.lists src) w;
  bl_pop = λ k w. popped_from k (w.lists k) w;
  put_object = λ b k d w. put s k d w.faults w;
  make_bucket = λ b w. (none, w);
  bucket_exists = λ b w. (ok true, w);
  insert_document = λ text w.
      (ok (length w.table), record w { table = w.table ++ fresh (length w.table) text ∷ [] });
  select_document = λ id w. (found (lookup w.table id), w);
  update_document = λ id status s3_path e w. (
    none,
    record w {
      table =
          modify w.table id
            λ d. record d { status = status; s3_path = s3_path; error = e; updated_at = "tuesday" };
    },
  );
  ping = λ w. (none, w);
  sleep = λ n w. (tt, w);
  is_done = λ ctx w. (false, w);
  render_pdf = λ text. ok (codes text);
  read_pdf = λ pdf. ok tt;
  sign_pdf = λ signer pdf. ok (pdf ++ codes "signed");
  parse_uuid = of_unary;
  uuid_text = unary;
  unmarshal_job = λ text. ok (job_read text);
  marshal_job = λ m. ok (job_written m);
  unmarshal_result = λ text. ok (result_read text);
  marshal_result = λ m. ok (result_written m);
  decode_create = λ body. ok body;
  extract = λ ctx trace. trace;
  inject = λ ctx. some ctx;
  start_span = λ ctx name. ctx;
}

length-table : (ds : List (Document ℕ)) → lookup ds (length ds) ≡ none
length-table [] = refl
length-table (d ∷ ds) = length-table ds

lookup-last : (ds : List (Document ℕ)) (d : Document ℕ) → lookup (ds ++ d ∷ []) (length ds) ≡ some d
lookup-last [] d = refl
lookup-last (x ∷ ds) d = lookup-last ds d

lookup-other :
    (ds : List (Document ℕ)) (d : Document ℕ) (i : ℕ)
    → i ≢ length ds
    → lookup (ds ++ d ∷ []) i ≡ lookup ds i
lookup-other [] d zero h = absurd (h refl)
lookup-other [] d (suc i) h = refl
lookup-other (x ∷ ds) d zero h = refl
lookup-other (x ∷ ds) d (suc i) h = lookup-other ds d i (λ e. h (ap suc e))

lookup-modify :
    (ds : List (Document ℕ)) (i : ℕ) (f : Document ℕ → Document ℕ) (d : Document ℕ)
    → lookup ds i ≡ some d
    → lookup (modify ds i f) i ≡ some (f d)
lookup-modify [] i f d h = cc
lookup-modify (x ∷ ds) zero f d h = cc
lookup-modify (x ∷ ds) (suc i) f d h = lookup-modify ds i f d h

lookup-modify_other :
    (ds : List (Document ℕ)) (i : ℕ) (f : Document ℕ → Document ℕ) (j : ℕ)
    → j ≢ i
    → lookup (modify ds i f) j ≡ lookup ds j
lookup-modify_other [] i f j h = refl
lookup-modify_other (x ∷ ds) zero f zero h = absurd (h refl)
lookup-modify_other (x ∷ ds) zero f (suc j) h = refl
lookup-modify_other (x ∷ ds) (suc i) f zero h = refl
lookup-modify_other (x ∷ ds) (suc i) f (suc j) h = lookup-modify_other ds i f j (λ e. h (ap suc e))

module _ (s : Setup) where
  put-done :
      (k : String) (d : Bytes) (n : ℕ) (w : World)
      → (put s k d n w).0 ≡ none
      → (put s k d n w).1.objects k ≡ some d
  put-done k d zero w h = ground (arith, eq_refl k)
  put-done k d (suc n) w h = ground (arith, eq_refl k)

  put-keeps : (k : String) (d : Bytes) (n : ℕ) (w : World) → (put s k d n w).1.lists ≡ w.lists
  put-keeps k d zero w = ground arith
  put-keeps k d (suc n) w = ground arith

  moved_from-got :
      (src dst v : String) (xs : List String) (w : World)
      → (moved_from src dst xs w).0 ≡ got v
      → (rest : List String) × (xs ≡ v ∷ rest)
        × ((moved_from src dst xs w).1.lists ≡ moved src dst v rest w.lists)
  moved_from-got src dst v [] w h = cc
  moved_from-got src dst v (x ∷ xs) w h =
      let same : x ≡ v = cc in
      (xs, ap (λ (y : String). y ∷ xs) same, ap (λ y. moved src dst y xs w.lists) same)

  moved_from-nil :
      (src dst : String) (xs : List String) (w : World)
      → (moved_from src dst xs w).0 ≡ nil
      → (moved_from src dst xs w).1.lists ≡ w.lists
  moved_from-nil src dst [] w h = refl
  moved_from-nil src dst (x ∷ xs) w h = cc

  popped_from-got :
      (k : String) (xs items : List String) (w : World)
      → (popped_from k xs w).0 ≡ got items
      → (v : String) × (rest : List String) × (items ≡ k ∷ v ∷ [])
        × (xs ≡ v ∷ rest)
        × ((popped_from k xs w).1.lists ≡ update k rest w.lists)
  popped_from-got k [] items w h = cc
  popped_from-got k (v ∷ xs) items w h = (v, xs, cc, refl, refl)

  pub memory-Laws : PlatformLaws (memory s)
  memory-Laws = record {
    lists = λ w. w.lists;
    objects = λ w. w.objects;
    r_push_done = λ k v w h. ground arith;
    l_push_done = λ k v w h. ground arith;
    l_rem_done = λ k v w h. refl;
    l_rem_any = λ k v w. inr refl;
    l_len_keeps = λ k w. refl;
    l_len_counts = λ k w n h. cc;
    bl_move_got = λ src dst v w h. moved_from-got src dst v (w.lists src) w h;
    bl_move_nil = λ src dst w h. moved_from-nil src dst (w.lists src) w h;
    bl_pop_got = λ k w items h. popped_from-got k (w.lists k) items w h;
    put_object_keeps = λ b k d w. put-keeps k d w.faults w;
    put_object_done = λ b k d w h. put-done k d w.faults w h;
    is_done_keeps = λ ctx w. refl;
    sleep_keeps = λ n w. refl;
  }

popped_from-keeps :
    (k : String) (xs : List String) (w : World) → (popped_from k xs w).1.table ≡ w.table
popped_from-keeps k [] w = refl
popped_from-keeps k (x ∷ xs) w = refl

module _ (s : Setup) where
  pushed_apart : (k v : String) (w : World) → ((memory s).r_push k v w).1.table ≡ w.table
  pushed_apart k v w = ground arith

  pub memory-Tables : DatabaseLaws (memory s) (memory-Laws s)
  unfolding memory-Laws
  memory-Tables = record {
    documents = λ w. lookup w.table;
    insert_done = λ text w id h.
        let same : length w.table ≡ id = cc in
        rw (← same) (
          length-table w.table,
          fresh (length w.table) text,
          lookup-last w.table (fresh (length w.table) text),
          refl,
          refl,
          refl,
          refl,
          refl,
        );
    insert_other = λ text w id other h ne.
        let same : length w.table ≡ id = cc in lookup-other w.table _ other (rw same ne);
    insert_keeps = λ text w. refl;
    select_keeps = λ id w. refl;
    update_done =
        λ id status s3_path e w d h there. ("tuesday", lookup-modify w.table id _ d there);
    update_other = λ id status s3_path e w other ne. lookup-modify_other w.table id _ other ne;
    update_keeps = λ id status s3_path e w. refl;
    r_push_apart = λ k v w. ap lookup (pushed_apart k v w);
    bl_pop_apart = λ k w. ap lookup (popped_from-keeps k (w.lists k) w);
  }

  pub memory-IsServing : IsServing (memory s) (memory-Laws s) memory-Tables
  unfolding memory-Laws memory-Tables
  memory-IsServing = record {
    select_found = λ id w doc there. ap found there;
    select_missing = λ id w gone. ap found gone;
    bl_pop_answers = λ k v rest w held. ap (λ (xs : List String). (popped_from k xs w).0) held;
  }

  pub memory-RoundTrips : RoundTrips (memory s)
  memory-RoundTrips = record {
    job_text = λ m text h.
        let same : job_written m ≡ text = cc in rw (← same) (ap ok (job_read-written m));
    result_text = λ m text h.
        let same : result_written m ≡ text = cc in rw (← same) (ap ok (result_read-written m));
    uuid_read = of_unary-unary;
  }

-- Redis accepts every push.
module _ (up : Bool) where
  abbrev pub accepting : Setup
  accepting = record { refuses_right = false; refuses_left = λ _. false; store_up = up }

  pub accepting-IsReachable : IsReachable (memory accepting) (memory-Laws accepting)
  unfolding memory-Laws
  accepting-IsReachable = record {
    r_push_answers = λ k v w. refl;
    l_push_answers = λ k v w. refl;
    l_rem_answers = λ k v w. refl;
    l_len_answers = λ k w. (length (w.lists k), refl);
    bl_move_answers =
        λ src dst v rest w held. ap (λ (xs : List String). (moved_from src dst xs w).0) held;
    bl_move_waits = λ src dst w empty. ap (λ (xs : List String). (moved_from src dst xs w).0) empty;
    marshal_answers = λ m. (result_written m, refl);
  }
