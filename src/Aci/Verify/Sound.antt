-- ===== src/Aci/Verify/Sound.antt =====
-- What holds of the ACI evidence that is accepted.
use ravl.Prelude.{
  ◌≡◌, ap, ◌∙◌, sym, String, inl, inr, arith, List, Bool, true, not, Option, some, [], ◌∷◌, Bytes,
  codes, bytes_eq→eq, Option-cases,
}
use ravl.Result.{ok, bind_returned, ok-injective}
use ravl.Options.{Options}
use ravl.Http.Message.{HttpResponses}
use ravl.Util.Hex.{to_hex}
use ravl.Crypto.{OpenSsl}
use ravl.Json.{JsonLibrary}
use ravl.Snp.Claims.{Claims}
use ravl.Snp.Verify
use ravl.Snp.Verify.Sound.{IsEndorsed, verify-IsEndorsed}
use ravl.Aci.Cose.{Qcbor, ProtectedHeader, is_rsa_alg, decode_protected_header}
use ravl.Aci.Did.{JsonWebKeyRsaPublic, VerificationMethod, DidDocument, find_key}
use ravl.Aci.Roots.{UvmEndorsements, matches_uvm_roots_of_trust}
use ravl.Aci.Endorsements.{
  UvmLibrary, UvmEndorsementsPayload, check, rsa_public_key, cose_verify, verify_signature,
  chain_to_pem, parse_document, choose_key, parse_payload, verify_uvm_endorsements,
}
use ravl.Aci.Verify.{AciAttestation, verify}

check_passed :
    (wanted : Bool) (message : String) {u : Unit {0}}
    → check (not wanted) message ≡ ok u
    → wanted ≡ true
check_passed wanted message h = ground (arith, h)

module _ (qcbor : Qcbor) (crypto : OpenSsl) (json : JsonLibrary)
    (uvm : UvmLibrary crypto json) where
  choose_key-find_key :
      (did : Bytes) (vms : List VerificationMethod) (key : JsonWebKeyRsaPublic)
      → choose_key qcbor crypto json uvm did vms ≡ ok key
      → find_key did vms ≡ some key
  unfolding choose_key
  choose_key-find_key did [] key h = absurd cc
  choose_key-find_key did (vm ∷ vms) key h = elim (Option-cases (find_key did (vm ∷ vms))) [
    | inl e ↦ absurd (ground (arith, e, h))
    | inr (k, e) ↦ ground (arith, e, h)
  ]

  -- The key of the signature, and the payload that it has signed.
  verify_signature_returned :
      (key : JsonWebKeyRsaPublic) (raw payload : Bytes)
      → verify_signature qcbor crypto json uvm key raw ≡ ok payload
      → (rsa_key : crypto.Key) × (rsa_public_key qcbor crypto json uvm key ≡ ok rsa_key)
        × (uvm.sign1_verify rsa_key raw ≡ some payload)
  unfolding verify_signature cose_verify
  verify_signature_returned key raw payload h =
      let (content, e, f) = bind_returned (cose_verify qcbor crypto json uvm key raw) _ h in
      let (rsa_key, e', f') = bind_returned (rsa_public_key qcbor crypto json uvm key) _ f in
      let same = ok-injective (uvm.sign1_verify rsa_key raw) content e' in
      (
        rsa_key,
        f',
        elim (Option-cases (uvm.sign1_verify rsa_key raw)) [
          | inl n ↦ absurd (ground (arith, n, same, e))
          | inr (p, s) ↦ ground (arith, s, same, e)
        ],
      )

  -- The message is signed by the key that its issuer's DID document has for the issuer, and its
  -- payload is about the measurement, and under a root of trust.
  pub record IsRooted (raw measurement : Bytes) : Type 0 where
    pub phdr : ProtectedHeader
    pub pem_chain : Bytes
    pub text : Bytes
    pub document : DidDocument
    pub key : JsonWebKeyRsaPublic
    pub rsa_key : crypto.Key
    pub raw_payload : Bytes
    pub payload : UvmEndorsementsPayload
    pub header : decode_protected_header qcbor raw ≡ ok phdr
    pub content_type : phdr.content_type ≡ codes "application/json"
    pub rsa : is_rsa_alg phdr.alg ≡ true
    pub chain : chain_to_pem qcbor crypto json uvm phdr.x5_chain ≡ ok pem_chain
    pub resolved : uvm.resolve pem_chain phdr.iss ≡ ok text
    pub parsed : parse_document qcbor crypto json uvm text ≡ ok document
    pub of_issuer : find_key phdr.iss document.verification_method ≡ some key
    pub at_key : rsa_public_key qcbor crypto json uvm key ≡ ok rsa_key
    pub signed : uvm.sign1_verify rsa_key raw ≡ some raw_payload
    pub read : parse_payload qcbor crypto json uvm raw_payload ≡ ok payload
    pub measured : payload.sevsnpvm_launch_measurement ≡ to_hex measurement
    pub rooted :
        matches_uvm_roots_of_trust
          (record { did = phdr.iss; feed = phdr.feed; svn = payload.sevsnpvm_guest_svn })
        ≡ true

  pub verify_uvm_endorsements-IsRooted :
      (raw measurement : Bytes) (end : UvmEndorsements)
      → verify_uvm_endorsements qcbor crypto json uvm raw measurement ≡ ok end
      → IsRooted raw measurement
  unfolding verify_uvm_endorsements
  verify_uvm_endorsements-IsRooted raw measurement end h =
      let (phdr, e₁, f₁) = bind_returned (decode_protected_header qcbor raw) _ h in
      let (_, e₂, f₂) = bind_returned (check _ _) _ e₁ in
      let (_, e₃, f₃) = bind_returned (check _ _) _ e₂ in
      let (pem_chain, e₄, f₄) =
        bind_returned (chain_to_pem qcbor crypto json uvm phdr.x5_chain) _ e₃ in
      let (text, e₅, f₅) = bind_returned (uvm.resolve pem_chain phdr.iss) _ e₄ in
      let (document, e₆, f₆) = bind_returned (parse_document qcbor crypto json uvm text) _ e₅ in
      let (key, e₇, f₇) =
        bind_returned (choose_key qcbor crypto json uvm phdr.iss document.verification_method) _
          e₆ in
      let (raw_payload, e₈, f₈) =
        bind_returned (verify_signature qcbor crypto json uvm key raw) _ e₇ in
      let (payload, e₉, f₉) =
        bind_returned (parse_payload qcbor crypto json uvm raw_payload) _ e₈ in
      let (_, e₁₀, f₁₀) = bind_returned (check _ _) _ e₉ in
      let (_, _, f₁₁) = bind_returned (check _ _) _ e₁₀ in
      let (rsa_key, k₁, k₂) = verify_signature_returned key raw raw_payload f₈ in
      record {
        phdr = phdr;
        pem_chain = pem_chain;
        text = text;
        document = document;
        key = key;
        rsa_key = rsa_key;
        raw_payload = raw_payload;
        payload = payload;
        header = f₁;
        content_type = bytes_eq→eq _ _ (check_passed _ _ f₂);
        rsa = check_passed _ _ f₃;
        chain = f₄;
        resolved = f₅;
        parsed = f₆;
        of_issuer = choose_key-find_key phdr.iss document.verification_method key f₇;
        at_key = k₁;
        signed = k₂;
        read = f₉;
        measured = bytes_eq→eq _ _ (check_passed _ _ f₁₀);
        rooted = check_passed _ _ f₁₁;
      }

  -- Evidence of an ACI attestation that `verify` accepts: the SEV/SNP attestation accepts it with
  -- the same claims, so its chain and signature are verified; and the UVM endorsements are in JSON,
  -- signed by an RSA key which the document of the issuer's DID has for the issuer, for the
  -- measurement of the claims, and their DID, feed and version match a root of trust.
  pub verify-IsRooted :
      (att : AciAttestation) (options : Options) (responses : Option HttpResponses)
      (claims : Claims)
      → verify qcbor crypto json uvm att options responses ≡ ok claims
      → (Verify.verify crypto att.base options responses ≡ ok claims)
        × IsEndorsed crypto att.base options responses
        × IsRooted att.uvm_endorsements claims.report.measurement
  unfolding verify
  verify-IsRooted att options responses claims h =
      let (snp, e₁, f₁) = bind_returned (Verify.verify crypto att.base options responses) _ h in
      let (end, e₂, f₂) =
        bind_returned
          (verify_uvm_endorsements qcbor crypto json uvm att.uvm_endorsements
            snp.report.measurement)
          _ e₁ in
      let same = ok-injective snp claims e₂ in
      let accepted = f₁ ∙ ap ok same in
      (
        accepted,
        verify-IsEndorsed crypto att.base options responses claims accepted,
        verify_uvm_endorsements-IsRooted att.uvm_endorsements claims.report.measurement end (
            ap
              (λ c.
                verify_uvm_endorsements qcbor crypto json uvm att.uvm_endorsements
                  c.report.measurement)
              (sym same)
            ∙ f₂),
      )
