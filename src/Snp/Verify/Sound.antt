-- ===== src/Snp/Verify/Sound.antt =====
-- What holds of the SEV/SNP evidence that is accepted.
use ravl.Prelude.{◌≡◌, ap, ◌∙◌, Bool, true, not, ◌&&◌, ◌||◌, List, Option, Bytes, length, ◌==◌}
use ravl.Result.{ok, throw_if, rethrow, bind_returned, throw_if_passed, rethrow_passed}
use ravl.Options.{Options}
use ravl.Http.Message.{HttpResponses}
use ravl.Crypto.{OpenSsl, checked_chain}
use ravl.Sgx.Layout.{number_at}
use ravl.Sgx.Consume.{is_empty}
use ravl.Sgx.Verify.{Evidence, has_responses}
use ravl.Sgx.Verify.Sound.{throw_if_and}
use ravl.Snp.Responses.{EndorsementsEtc, certificate_at}
use ravl.Snp.Claims.{Signature, Claims, signature_at}
use ravl.Snp.Verify.{
  amd_milan_root_signing_public_key, verify_signature, find_endorsements, prepare_store, check_root,
  signed_message, check_signature, verify,
}

module _ (crypto : OpenSsl) where
  -- The key of the leaf has signed all of the evidence but its last 512 bytes.
  pub record IsSigned (evidence : Bytes) (vcek : crypto.X509) : Type 0 where
    pub message : Bytes
    pub key : crypto.Key
    pub signature : Signature
    pub at_message : signed_message crypto evidence ≡ ok message
    pub of_leaf : crypto.public_key vcek ≡ ok key
    pub at_signature : signature_at evidence ≡ ok signature
    pub signed : verify_signature crypto key message signature ≡ ok true

  check_signature-IsSigned :
      (evidence : Bytes) (vcek : crypto.X509) {u : Unit {0}}
      → check_signature crypto evidence vcek ≡ ok u
      → IsSigned evidence vcek
  unfolding check_signature
  check_signature-IsSigned evidence vcek e =
      let (algorithm, e₁, _) = bind_returned (number_at evidence 52 4) _ e in
      let (_, e₂, _) =
        bind_returned (throw_if (not (algorithm == 1)) "unexpected signature algorithm") _ e₁ in
      let (message, e₃, f₃) = bind_returned (signed_message crypto evidence) _ e₂ in
      let (key, e₄, f₄) = bind_returned (crypto.public_key vcek) _ e₃ in
      let (signature, e₅, f₅) = bind_returned (signature_at evidence) _ e₄ in
      let (good, e₆, f₆) = bind_returned (verify_signature crypto key message signature) _ e₅ in
      record {
        message = message;
        key = key;
        signature = signature;
        at_message = f₃;
        of_leaf = f₄;
        at_signature = f₅;
        signed = f₆ ∙ ap ok (throw_if_passed good _ e₆);
      }

  -- The chain of three that OpenSSL has verified for the endorsements, its root a CA's, with AMD's
  -- key unless the options do without, and the evidence signed by its leaf.
  pub record IsEndorsed (att : Evidence) (options : Options) (responses : Option HttpResponses)
      : Type 0 where
    pub e : EndorsementsEtc crypto
    pub store : crypto.Store
    pub trusted_root : Bool
    pub chain : List crypto.X509
    pub store' : crypto.Store
    pub vcek : crypto.X509
    pub ark : crypto.X509
    pub found : find_endorsements crypto att.endorsements options responses ≡ ok e
    pub prepared : prepare_store crypto e ≡ ok (store, trusted_root)
    pub chain_verified :
        checked_chain crypto store e.vcek_certificate_chain options.certificate_verification
          trusted_root
        ≡ ok (chain, store')
    pub three : (length chain == 3) ≡ true
    pub at_vcek : certificate_at crypto chain 0 ≡ ok vcek
    pub at_ark : certificate_at crypto chain 2 ≡ ok ark
    pub manufacturer :
        (not options.check_root_certificate_manufacturer_key
          || crypto.has_public_key ark amd_milan_root_signing_public_key)
        ≡ true
    pub root_ca : crypto.is_ca ark ≡ true
    pub all_signed : IsSigned att.evidence vcek

  -- Evidence that `verify` accepts: OpenSSL has verified a chain of three for the endorsements that
  -- were found, against a store that has the root of the endorsements, or trusts the chain's own if
  -- there is none; the chain's root is a CA's, with AMD's key if the options want it; and the key of
  -- the leaf has signed all of the evidence but its last 512 bytes.
  pub verify-IsEndorsed :
      (att : Evidence) (options : Options) (responses : Option HttpResponses) (claims : Claims)
      → verify crypto att options responses ≡ ok claims
      → IsEndorsed att options responses
  unfolding verify check_root
  verify-IsEndorsed att options responses claims h =
      let (_, e₁, _) =
        bind_returned
          (throw_if (is_empty att.endorsements && not (has_responses responses))
            "missing endorsements")
          _ h in
      let (e, e₂, f₂) =
        bind_returned (find_endorsements crypto att.endorsements options responses) _ e₁ in
      let ((store, trusted_root), e₃, f₃) = bind_returned (prepare_store crypto e) _ e₂ in
      let ((chain, store'), e₄, f₄) =
        bind_returned
          (rethrow "{}" (
            checked_chain crypto store e.vcek_certificate_chain options.certificate_verification
              trusted_root))
          _ e₃ in
      let (_, e₅, t₅) =
        bind_returned (throw_if (not (length chain == 3)) "unexpected certificate chain length") _
          e₄ in
      let (vcek, e₆, f₆) = bind_returned (certificate_at crypto chain 0) _ e₅ in
      let (ark, e₇, f₇) = bind_returned (certificate_at crypto chain 2) _ e₆ in
      let (_, e₈, f₈) = bind_returned (check_root crypto ark options) _ e₇ in
      let (_, t₉, f₉) =
        bind_returned
          (throw_if
            (options.check_root_certificate_manufacturer_key
              && not (crypto.has_public_key ark amd_milan_root_signing_public_key))
            "Root CA certificate does not have the expected AMD Milan public key")
          _ f₈ in
      let (_, _, f₁₀) = bind_returned (check_signature crypto att.evidence vcek) _ e₈ in
      record {
        e = e;
        store = store;
        trusted_root = trusted_root;
        chain = chain;
        store' = store';
        vcek = vcek;
        ark = ark;
        found = f₂;
        prepared = f₃;
        chain_verified =
            rethrow_passed _
              (checked_chain crypto store e.vcek_certificate_chain options.certificate_verification
                trusted_root)
              (chain, store') f₄;
        three = throw_if_passed _ _ t₅;
        at_vcek = f₆;
        at_ark = f₇;
        manufacturer =
            throw_if_and options.check_root_certificate_manufacturer_key
              (crypto.has_public_key ark amd_milan_root_signing_public_key) _ f₉;
        root_ca = throw_if_passed _ _ t₉;
        all_signed = check_signature-IsSigned att.evidence vcek f₁₀;
      }
