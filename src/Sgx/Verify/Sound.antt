-- ===== src/Sgx/Verify/Sound.antt =====
-- What holds of the evidence that is accepted.
use mathlib.Core.Path.{subst}
use ravl.Prelude.{
  ℕ, ◌≡◌, refl, sym, ap, ◌∙◌, Bool, true, false, not, ◌&&◌, ◌||◌, List, [], ◌∷◌, Option, Bytes,
  String, codes, bytes_eq→eq, arith,
}
use ravl.Result.{Result, ok, throw_if, deref, bind_returned, throw_if_passed, ok-injective}
use ravl.Options.{Options}
use ravl.Http.Message.{HttpResponses}
use ravl.Crypto.{OpenSsl, front, back, verify_certificate_chain, verify_signature}
use ravl.Json.{JsonLibrary}
use ravl.Sgx.Layout.{Span, bytes_at}
use ravl.Sgx.Consume.{is_empty}
use ravl.Sgx.Quote.{SignatureData, parse_quote, parse_signature_data}
use ravl.Sgx.Tcb.{intel_root_public_key_pem}
use ravl.Sgx.Claims.{Claims, span_bytes}
use ravl.Sgx.Verify.{
  Evidence, has_responses, check_pck, check_signatures, certified, partial_verify, find_collateral,
  prepare_store, verify_full, verify,
}

pub throw_if_and :
    (a b : Bool) (m : String) {u : Unit {0}} → throw_if (a && not b) m ≡ ok u → (not a || b) ≡ true
throw_if_and true b m e = throw_if_passed b m e
throw_if_and false b m e = refl

module _ (crypto : OpenSsl) (take_pem : Bytes → Result (Bytes × Bytes)) where
  -- The signatures of the quoting enclave, by the certificate's key, and of the quote, by the key
  -- that the enclave's report has the hash of.
  pub record IsSigned (evidence : Bytes) (quote : Span) (d : SignatureData) (leaf : crypto.X509)
      : Type 0 where
    pub leaf_key : crypto.Key
    pub quote_key : crypto.Key
    pub report : Bytes
    pub report_signature : Bytes
    pub public_key : Bytes
    pub signed : Bytes
    pub quote_signature : Bytes
    pub auth_data : Bytes
    pub of_leaf : crypto.public_key leaf ≡ ok leaf_key
    pub of_public_key : crypto.p256_key public_key ≡ ok quote_key
    pub at_report : span_bytes evidence d.report ≡ ok report
    pub at_public_key : span_bytes evidence d.public_key ≡ ok public_key
    pub at_quote : span_bytes evidence quote ≡ ok signed
    pub report_signed : verify_signature crypto leaf_key report report_signature ≡ ok true
    pub quote_signed : verify_signature crypto quote_key signed quote_signature ≡ ok true
    pub bound :
        bytes_at evidence d.report_data.offset 32 ≡ ok (crypto.digest (public_key ∷ auth_data ∷ []))

  check_signatures-IsSigned :
      (evidence : Bytes) (quote : Span) (d : SignatureData) (leaf : crypto.X509) {u : Unit {0}}
      → check_signatures crypto take_pem evidence quote d leaf ≡ ok u
      → IsSigned evidence quote d leaf
  unfolding check_signatures
  check_signatures-IsSigned evidence quote d leaf e =
      let (leaf_key, e₁, f₁) = bind_returned (crypto.public_key leaf) _ e in
      let (report, e₂, f₂) = bind_returned (span_bytes evidence d.report) _ e₁ in
      let (report_signature, e₃, f₃) =
        bind_returned (span_bytes evidence d.report_signature) _ e₂ in
      let (good, e₄, f₄) =
        bind_returned (verify_signature crypto leaf_key report report_signature) _ e₃ in
      let (_, e₅, t₅) =
        bind_returned (throw_if (not good) "QE signature verification failed") _ e₄ in
      let (public_key, e₆, f₆) = bind_returned (span_bytes evidence d.public_key) _ e₅ in
      let (quote_key, e₇, f₇) = bind_returned (crypto.p256_key public_key) _ e₆ in
      let (signed, e₈, f₈) = bind_returned (span_bytes evidence quote) _ e₇ in
      let (quote_signature, e₉, f₉) = bind_returned (span_bytes evidence d.quote_signature) _ e₈ in
      let (fine, e₁₀, f₁₀) =
        bind_returned (verify_signature crypto quote_key signed quote_signature) _ e₉ in
      let (_, e₁₁, t₁₁) =
        bind_returned (throw_if (not fine) "quote signature verification failed") _ e₁₀ in
      let (auth_data, e₁₂, _) = bind_returned (span_bytes evidence d.auth_data) _ e₁₁ in
      let (expected, e₁₃, f₁₃) = bind_returned (bytes_at evidence d.report_data.offset 32) _ e₁₂ in
      let same =
        bytes_eq→eq (crypto.digest (public_key ∷ auth_data ∷ [])) expected
          (throw_if_passed _ _ e₁₃) in
      record {
        leaf_key = leaf_key;
        quote_key = quote_key;
        report = report;
        report_signature = report_signature;
        public_key = public_key;
        signed = signed;
        quote_signature = quote_signature;
        auth_data = auth_data;
        of_leaf = f₁;
        of_public_key = f₇;
        at_report = f₂;
        at_public_key = f₆;
        at_quote = f₈;
        report_signed = f₄ ∙ ap ok (throw_if_passed good _ t₅);
        quote_signed = f₁₀ ∙ ap ok (throw_if_passed fine _ t₁₁);
        bound = f₁₃ ∙ ap ok (sym same);
      }

  -- A chain that OpenSSL builds, whose leaf is a PCK certificate and whose root is a CA's, and has
  -- Intel's key unless the options do without.
  pub record IsPck (chain : List crypto.X509) (options : Options) (leaf : crypto.X509)
      : Type 0 where
    pub root : crypto.X509
    pub at_front : front chain ≡ ok leaf
    pub at_back : back chain ≡ ok root
    pub common_name : crypto.has_common_name leaf (codes "Intel SGX PCK Certificate") ≡ true
    pub manufacturer :
        (not options.check_root_certificate_manufacturer_key
          || crypto.has_public_key root intel_root_public_key_pem)
        ≡ true
    pub root_ca : crypto.is_ca root ≡ true

  check_pck-IsPck :
      (chain : List crypto.X509) (options : Options) (leaf : crypto.X509)
      → check_pck crypto take_pem chain options ≡ ok leaf
      → IsPck chain options leaf
  unfolding check_pck
  check_pck-IsPck chain options leaf e =
      let (first, e₁, f₁) = bind_returned (front chain) _ e in
      let (root, e₂, f₂) = bind_returned (back chain) _ e₁ in
      let (_, e₃, t₃) =
        bind_returned
          (throw_if (not (crypto.has_common_name first (codes "Intel SGX PCK Certificate")))
            "PCK certificate does not have expected common name")
          _ e₂ in
      let (_, e₄, t₄) =
        bind_returned
          (throw_if
            (options.check_root_certificate_manufacturer_key
              && not (crypto.has_public_key root intel_root_public_key_pem))
            "root CA certificate does not have the expected Intel SGX public key")
          _ e₃ in
      let (_, e₅, t₅) =
        bind_returned (throw_if (not (crypto.is_ca root)) "root certificate is not from a CA") _
          e₄ in
      subst (IsPck chain options) (ok-injective first leaf e₅) (record {
        root = root;
        at_front = f₁;
        at_back = f₂;
        common_name = throw_if_passed _ _ t₃;
        manufacturer =
            throw_if_and options.check_root_certificate_manufacturer_key
              (crypto.has_public_key root intel_root_public_key_pem) _ t₄;
        root_ca = throw_if_passed _ _ t₅;
      })

  -- The quote is parsed from the evidence, its PCK certificate is checked against a store, and all
  -- signatures are good.
  pub record IsGenuine (evidence : Bytes) (options : Options) (store : crypto.Store)
      (trusted_root : Bool) : Type 0 where
    pub quote : Span
    pub d : SignatureData
    pub chain : List crypto.X509
    pub store' : crypto.Store
    pub leaf : crypto.X509
    pub quote_parsed : parse_quote evidence ≡ ok quote
    pub signature_parsed : parse_signature_data take_pem quote evidence ≡ ok d
    pub chain_verified :
        verify_certificate_chain crypto d.certification_data store options.certificate_verification
          trusted_root
        ≡ ok (chain, store')
    pub pck : IsPck chain options leaf
    pub all_signed : IsSigned evidence quote d leaf

  certified-IsGenuine :
      (evidence : Bytes) (quote : Span) (d : SignatureData) (options : Options)
      (store : crypto.Store) (trusted_root : Bool) {r : crypto.X509 × crypto.Store}
      → parse_quote evidence ≡ ok quote
      → parse_signature_data take_pem quote evidence ≡ ok d
      → certified crypto take_pem evidence quote d options store trusted_root ≡ ok r
      → IsGenuine evidence options store trusted_root
  unfolding certified
  certified-IsGenuine evidence quote d options store trusted_root parsed parsed' e =
      let ((chain, store'), e₁, f₁) =
        bind_returned
          (verify_certificate_chain crypto d.certification_data store
            options.certificate_verification trusted_root)
          _ e in
      let (leaf, e₂, f₂) = bind_returned (check_pck crypto take_pem chain options) _ e₁ in
      let (_, _, f₃) =
        bind_returned (check_signatures crypto take_pem evidence quote d leaf) _ e₂ in
      record {
        quote = quote;
        d = d;
        chain = chain;
        store' = store';
        leaf = leaf;
        quote_parsed = parsed;
        signature_parsed = parsed';
        chain_verified = f₁;
        pck = check_pck-IsPck chain options leaf f₂;
        all_signed = check_signatures-IsSigned evidence quote d leaf f₃;
      }

  partial_verify-IsGenuine :
      (evidence : Bytes) (options : Options) (claims : Claims)
      → partial_verify crypto take_pem evidence options ≡ ok claims
      → IsGenuine evidence options crypto.new_store true
  unfolding partial_verify
  partial_verify-IsGenuine evidence options claims e =
      let (quote, e₁, f₁) = bind_returned (parse_quote evidence) _ e in
      let (d, e₂, f₂) = bind_returned (parse_signature_data take_pem quote evidence) _ e₁ in
      let (_, _, f₃) =
        bind_returned (certified crypto take_pem evidence quote d options crypto.new_store true) _
          e₂ in
      certified-IsGenuine evidence quote d options crypto.new_store true f₁ f₂ f₃

  module _ (json : JsonLibrary) (parse_time_point : Bytes → Result ℕ) where
    verify_full-IsGenuine :
        (att : Evidence) (options : Options) (responses : Option HttpResponses) (claims : Claims)
        → verify_full crypto take_pem json parse_time_point att options responses ≡ ok claims
        → (store : crypto.Store) × IsGenuine att.evidence options store false
    unfolding verify_full
    verify_full-IsGenuine att options responses claims e =
        let (_, e₁, _) =
          bind_returned
            (throw_if (is_empty att.endorsements && not (has_responses responses))
              "missing endorsements")
            _ e in
        let (found, e₂, _) =
          bind_returned (find_collateral crypto take_pem att options responses) _ e₁ in
        let (quote, e₃, f₃) = bind_returned (parse_quote att.evidence) _ e₂ in
        let (d, e₄, f₄) = bind_returned (parse_signature_data take_pem quote att.evidence) _ e₃ in
        let (collateral, e₅, _) = bind_returned (deref found) _ e₄ in
        let ((store, trusted_root), e₆, _) =
          bind_returned (prepare_store crypto take_pem collateral) _ e₅ in
        let ((_, store'), e₇, _) =
          bind_returned
            (verify_certificate_chain crypto collateral.pck_crl_issuer_chain store
              options.certificate_verification trusted_root)
            _ e₆ in
        let (_, _, f₈) =
          bind_returned (certified crypto take_pem att.evidence quote d options store' false) _
            e₇ in
        (store', certified-IsGenuine att.evidence quote d options store' false f₃ f₄ f₈)

    -- Evidence that `verify` accepts, in both modes: its quote and signature data were parsed from it,
    -- OpenSSL has verified the chain of the PCK certificate against the store, with the chain's root
    -- trusted only for a partial verification, the leaf has Intel's common name and the root is a
    -- CA's, with Intel's key if the options want it, the leaf's key has signed the quoting enclave's
    -- report, the enclave's key has signed the quote, and the report has the hash of that key.
    pub verify-IsGenuine :
        (att : Evidence) (options : Options) (responses : Option HttpResponses) (claims : Claims)
        → verify crypto take_pem json parse_time_point att options responses ≡ ok claims
        → (store : crypto.Store) × IsGenuine att.evidence options store options.partial
    unfolding verify
    verify-IsGenuine att options responses claims e = go options.partial refl
      where
        go :
            (b : Bool)
            → options.partial ≡ b
            → (store : crypto.Store) × IsGenuine att.evidence options store b
        go true h = (
          crypto.new_store,
          partial_verify-IsGenuine att.evidence options claims (ground (arith, h, e)),
        )
        go false h = verify_full-IsGenuine att options responses claims (ground (arith, h, e))
