-- ===== src/Seal/Signer.antt =====
-- `VerifyPDFSignature`, `issuerMatchesCA` and `NewSigner` of
-- apps/seal/seal-worker/internal/signer.go. The libraries for PDF signatures, PEM and X.509 are
-- parameters; pointers that may be nil are options.
pub mod Verify
use Prim.Native.String.{◌++◌}
use atlas_idp.Common.{
  String, Bool, true, false, ◌&&◌, Option, none, some, List, [], ◌∷◌, Bytes, Result, ok, err, Act,
  ◌>>=◌, pure, str_eq, if◌then◌else◌,
}
use atlas_idp.Text.{bytes_eq}

pub record Certificate : Type 0 where
  pub subject_name : String
  pub issuer_name : String
  pub authority_key_id : Bytes
  pub subject_key_id : Bytes
  -- NotAfter in RFC 3339
  pub not_after : String

-- A signer that the library found: its certificates and the time of its signature.
pub record SignerFound : Type 0 where
  pub certificates : List (Option Certificate)
  pub signature_time : Option String

pub record VerifyResult : Type 0 where
  pub valid : Bool
  pub subject : String
  pub issuer : String
  pub expiry : String
  pub signing_time : String
  pub error : String

pub issuer_matches_ca : Option Certificate → Option Certificate → Bool
unfolding bytes_eq
issuer_matches_ca none ca = false
issuer_matches_ca (some leaf) none = false
issuer_matches_ca (some leaf) (some ca) =
    str_eq leaf.issuer_name ca.subject_name && bytes_eq leaf.authority_key_id ca.subject_key_id

abbrev pub refused : String → VerifyResult
refused e = record {
  valid = false;
  subject = "";
  issuer = "";
  expiry = "";
  signing_time = "";
  error = e;
}

abbrev accepted : Certificate → Option String → VerifyResult
accepted cert time = record {
  valid = true;
  subject = cert.subject_name;
  issuer = cert.issuer_name;
  expiry = cert.not_after;
  signing_time = elim time [ none ↦ "" | some t ↦ t ];
  error = "";
}

-- the signer's certificate, if there is a first one and it is not nil
abbrev pub first_certificate : List (Option Certificate) → Option Certificate
first_certificate [] = none
first_certificate (first ∷ _) = first

-- the loop over the signers that were found
pub verify_signers : Option Certificate → List SignerFound → VerifyResult
unfolding issuer_matches_ca
verify_signers ca [] = refused "no valid signature found in chain"
verify_signers ca (found ∷ more) =
    let rest = verify_signers ca more in
    elim (first_certificate found.certificates) [
      | none ↦ rest
      | some cert ↦
          if issuer_matches_ca (some cert) ca then accepted cert found.signature_time else rest
    ]

-- with the answer of the library: the signers, or an error
pub verify_pdf_signature : Result (List SignerFound) → Option Certificate → VerifyResult
unfolding verify_signers
verify_pdf_signature (err e) ca = refused ("verification failed: " ++ e)
verify_pdf_signature (ok signers) ca = verify_signers ca signers

pub record KeyStore : Type 1 where
  pub World : Type 0
  pub Key : Type 0
  pub CryptoSigner : Type 0
  pub read_file : String → Act World (Result Bytes)
  -- pem.Decode: the bytes of the first block
  pub pem_decode : Bytes → Option Bytes
  pub parse_certificate : Bytes → Result Certificate
  pub parse_pkcs8 : Bytes → Result Key
  pub parse_pkcs1 : Bytes → Result Key
  -- the assertion key.(crypto.Signer)
  pub as_signer : Key → Option CryptoSigner

module _ (k : KeyStore) where
  -- PKCS #8, else PKCS #1
  parse_key : Bytes → Result k.Key
  parse_key block = elim (k.parse_pkcs8 block) [
    | ok key ↦ ok key
    | err _ ↦ elim (k.parse_pkcs1 block) [ ok key ↦ ok key | err e ↦ err ("parse key: " ++ e) ]
  ]

  signer_of_key : Bytes → Result k.CryptoSigner
  unfolding parse_key
  signer_of_key key_pem = elim (k.pem_decode key_pem) [
    | none ↦ err "no PEM block in key"
    | some block ↦ elim (parse_key block) [
      | err e ↦ err e
      | ok key ↦ elim (k.as_signer key) [
        | none ↦ err "key does not implement crypto.Signer"
        | some signer ↦ ok signer
      ]
    ]
  ]

  -- the signer from the contents of the two files
  signer_of : Bytes → Bytes → Result (Certificate × k.CryptoSigner)
  unfolding signer_of_key
  signer_of cert_pem key_pem = elim (k.pem_decode cert_pem) [
    | none ↦ err "no PEM block in cert"
    | some block ↦ elim (k.parse_certificate block) [
      | err e ↦ err ("parse cert: " ++ e)
      | ok cert ↦ elim (signer_of_key key_pem) [ err e ↦ err e | ok signer ↦ ok (cert, signer) ]
    ]
  ]

  unfoldable pub new_signer : String → String → Act k.World (Result (Certificate × k.CryptoSigner))
  unfolding signer_of
  new_signer cert_path key_path = do
    cert ← k.read_file cert_path
    elim cert [
      | err e ↦ pure (err ("read cert " ++ (cert_path ++ (": " ++ e))))
      | ok cert_pem ↦ do
        key ← k.read_file key_path
        elim key [
          | err e ↦ pure (err ("read key " ++ (key_path ++ (": " ++ e))))
          | ok key_pem ↦ pure (signer_of cert_pem key_pem)
        ]
    ]
