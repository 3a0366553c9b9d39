-- ===== src/Tests/Signature.antt =====
-- The theorem on PDF signatures at a concrete certificate.
use atlas_idp.Common.{◌≡◌, ◌↔◌, true, none, some, List, [], ◌∷◌, codes, ok, Result}
use atlas_idp.Seal.Signer.{Certificate, SignerFound, verify_pdf_signature}
use atlas_idp.Seal.Signer.Verify.{AnyTrusted, verify_pdf_signature_iff}

abbrev authority : Certificate
authority = record {
  subject_name = "Atlas CA";
  issuer_name = "Atlas CA";
  authority_key_id = codes "ca";
  subject_key_id = codes "ca";
  not_after = "2030";
}

abbrev signer : Certificate
signer = record {
  subject_name = "PDF Signer";
  issuer_name = "Atlas CA";
  authority_key_id = codes "ca";
  subject_key_id = codes "leaf";
  not_after = "2027";
}

abbrev signers : List SignerFound
signers =
    record { certificates = none ∷ []; signature_time = none }
    ∷ record { certificates = some signer ∷ []; signature_time = some "2026" }
    ∷ []

verify_pdf_signature_iff_example :
    ((verify_pdf_signature (ok signers) (some authority)).valid ≡ true) ↔ (
      (found : List SignerFound) × (◌≡◌ {A = Result (List SignerFound)} (ok signers) (ok found))
      × AnyTrusted authority found)
verify_pdf_signature_iff_example = verify_pdf_signature_iff authority (ok signers)
