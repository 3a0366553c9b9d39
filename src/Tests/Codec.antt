-- ===== src/Tests/Codec.antt =====
-- Texts for the tests: a way to write several texts as one and to read them back, and identifiers
-- in unary.
use Prim.Native.Char.{Char, code}
use Prim.Native.String.{String}
use Prim.Native.Nat.{ℕ, zero, suc}
use atlas_idp.Common.{◌≡◌, refl, ap, Result, ok, err, ◌==◌, if◌then◌else◌}
use atlas_idp.Seal.Messages.{JobMessage, ResultMessage}

-- each character after an a, and a b behind the last
abbrev pub written : String → String → String
written String.[] rest = String.◌∷◌ "b" rest
written (String.◌∷◌ c s) rest = String.◌∷◌ "a" (String.◌∷◌ c (written s rest))

abbrev push_char : Char → String × String → String × String
push_char c (s, rest) = (String.◌∷◌ c s, rest)

abbrev pub read : String → String × String
read String.[] = ("", "")
read (String.◌∷◌ m String.[]) = ("", "")
read (String.◌∷◌ m (String.◌∷◌ c s)) =
    let more = push_char c (read s) in if code m == 97 then more else ("", String.◌∷◌ c s)

read-written : (s rest : String) → read (written s rest) ≡ (s, rest)
read-written String.[] String.[] = refl
read-written String.[] (String.◌∷◌ c rest) = refl
read-written (String.◌∷◌ c s) rest = ap (push_char c) (read-written s rest)

abbrev pub job_written : JobMessage → String
job_written m = written m.document_id (written m.input_text (written m.trace_parent ""))

abbrev pub job_read : String → JobMessage
job_read s =
    let (id, s₁) = read s in
    let (text, s₂) = read s₁ in
    record { document_id = id; input_text = text; trace_parent = (read s₂).0 }

pub job_read-written : (m : JobMessage) → job_read (job_written m) ≡ m
job_read-written m = rw (read-written, read-written, read-written) refl

abbrev pub result_written : ResultMessage → String
result_written m =
    written m.document_id
      (written m.status (written m.s3_path (written m.error (written m.trace_parent ""))))

abbrev pub result_read : String → ResultMessage
result_read s =
    let (id, s₁) = read s in
    let (status, s₂) = read s₁ in
    let (s3_path, s₃) = read s₂ in
    let (e, s₄) = read s₃ in
    record {
      document_id = id;
      status = status;
      s3_path = s3_path;
      error = e;
      trace_parent = (read s₄).0;
    }

pub result_read-written : (m : ResultMessage) → result_read (result_written m) ≡ m
result_read-written m =
    rw (read-written, read-written, read-written, read-written, read-written) refl

abbrev pub unary : ℕ → String
unary zero = ""
unary (suc n) = String.◌∷◌ "i" (unary n)

abbrev pub next : Result ℕ → Result ℕ
next (ok n) = ok (suc n)
next (err e) = err e

abbrev pub of_unary : String → Result ℕ
of_unary String.[] = ok 0
of_unary (String.◌∷◌ c s) =
    let rest = next (of_unary s) in if code c == 105 then rest else err "bad id"

pub of_unary-unary : (n : ℕ) → of_unary (unary n) ≡ ok n
of_unary-unary zero = refl
of_unary-unary (suc n) = ap next (of_unary-unary n)
