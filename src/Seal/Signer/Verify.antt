-- ===== src/Seal/Signer/Verify.antt =====
-- When `VerifyPDFSignature` of apps/seal/seal-worker/internal/signer.go accepts.
use atlas_idp.Common.{
  ◌≡◌, ◌↔◌, ◌⊎◌, refl, inl, inr, Bool, true, false, some, List, [], ◌∷◌, Result, ok, err, arith,
  Bool-cases, Option-cases, eq_iff,
}
use atlas_idp.Text.Laws.{bytes_eq_iff}
use atlas_idp.Seal.Signer.{
  Certificate, SignerFound, first_certificate, issuer_matches_ca, verify_signers,
  verify_pdf_signature,
}

-- A signer whose first certificate names the authority as its issuer, by name and by key.
pub record IsIssued (ca cert : Certificate) : Type 0 where
  pub name : cert.issuer_name ≡ ca.subject_name
  pub key : cert.authority_key_id ≡ ca.subject_key_id

abbrev IsTrusted : Certificate → SignerFound → Type 0
IsTrusted ca found =
    (cert : Certificate) × (first_certificate found.certificates ≡ some cert) × IsIssued ca cert

abbrev pub AnyTrusted : Certificate → List SignerFound → Type 0
AnyTrusted ca [] = ⊥
AnyTrusted ca (found ∷ more) = IsTrusted ca found ⊎ AnyTrusted ca more

IsIssued-iff :
    (ca cert : Certificate) → (issuer_matches_ca (some cert) (some ca) ≡ true) ↔ IsIssued ca cert
unfolding issuer_matches_ca
IsIssued-iff ca cert = (
  λ h. record {
    name = (eq_iff cert.issuer_name ca.subject_name).0 (ground arith);
    key = (bytes_eq_iff cert.authority_key_id ca.subject_key_id).0 (ground arith);
  },
  λ i.
      rw
        (
          (eq_iff cert.issuer_name ca.subject_name).1 i.name,
          (bytes_eq_iff cert.authority_key_id ca.subject_key_id).1 i.key,
        )
        refl,
)

untrue : {b : Bool} → b ≡ false → b ≡ true → ⊥
untrue h h' = cc

passed_over :
    (ca : Certificate) (found : SignerFound) (more : List SignerFound)
    → (((verify_signers (some ca) (found ∷ more)).valid ≡ true)
        ↔ (IsTrusted ca found ⊎ ((verify_signers (some ca) more).valid ≡ true)))
unfolding verify_signers
passed_over ca found more = elim (Option-cases (first_certificate found.certificates)) [
  | inl missing ↦ (
    λ h. inr (rw (verify_signers, missing) at h),
    λ s. elim s [ inl (cert, e, _) ↦ absurd (cc) | inr h ↦ rw (verify_signers, missing) h ],
  )
  | inr (cert, given) ↦ elim (Bool-cases (issuer_matches_ca (some cert) (some ca))) [
    | inl match ↦ (
      λ h. inl (cert, given, (IsIssued-iff ca cert).0 match),
      λ s. rw (verify_signers, given, match) refl,
    )
    | inr other ↦ (
      λ h. inr (rw (verify_signers, given, other) at h),
      λ s. elim s [
        | inl (cert', e, issued) ↦
            let same : cert ≡ cert' = cc in
            absurd (untrue other (rw same ((IsIssued-iff ca cert').1 issued)))
        | inr h ↦ rw (verify_signers, given, other) h
      ],
    )
  ]
]

verify_signers_iff :
    (ca : Certificate) (signers : List SignerFound)
    → ((verify_signers (some ca) signers).valid ≡ true) ↔ AnyTrusted ca signers
unfolding verify_signers
verify_signers_iff ca [] = (λ h. cc, λ n. absurd n)
verify_signers_iff ca (found ∷ more) =
    let (there, back) = verify_signers_iff ca more in
    let (splits, joins) = passed_over ca found more in
    (
      λ h. elim (splits h) [ inl t ↦ inl t | inr r ↦ inr (there r) ],
      λ s. elim s [ inl t ↦ joins (inl t) | inr r ↦ joins (inr (back r)) ],
    )

-- With a certificate of the authority, `VerifyPDFSignature` calls a document valid exactly when the
-- library found signers without an error and the first certificate of one of them is issued by the
-- authority: its issuer is the authority's name and its authority key the authority's key.
pub verify_pdf_signature_iff :
    (ca : Certificate) (answer : Result (List SignerFound))
    → ((verify_pdf_signature answer (some ca)).valid ≡ true)
      ↔ ((signers : List SignerFound) × (answer ≡ ok signers) × AnyTrusted ca signers)
unfolding verify_pdf_signature
verify_pdf_signature_iff ca (err e) = (λ h. absurd (cc), λ (s, e', _). absurd (cc))
verify_pdf_signature_iff ca (ok signers) = (
  λ h. (signers, refl, (verify_signers_iff ca signers).0 h),
  λ (s, e', t). let same : signers ≡ s = cc in rw same ((verify_signers_iff ca s).1 t),
)
