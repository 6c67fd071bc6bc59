-- ===== src/Sgx/Verify/Current.antt =====
-- The endorsements of the evidence that is accepted.
use ravl.Prelude.{ℕ, ◌≡◌, Bool, true, false, not, ◌&&◌, ◌||◌, List, Option, Bytes, arith}
use ravl.Result.{Result, ok, throw_if, deref, bind_returned}
use ravl.Options.{Options}
use ravl.Http.Message.{HttpResponses}
use ravl.Crypto.{OpenSsl, front, back, verify_certificate_chain}
use ravl.Json.{JsonLibrary}
use ravl.Sgx.Layout.{Span}
use ravl.Sgx.Collateral.{Collateral}
use ravl.Sgx.Consume.{is_empty}
use ravl.Sgx.Quote.{SignatureData, parse_quote, parse_signature_data}
use ravl.Sgx.Extension.{CertificateExtension, certificate_extension}
use ravl.Sgx.Tcb.{TcbLevel, intel_root_public_key_pem, verify_tcb}
use ravl.Sgx.Tcb.Accepted.{IsAccepted, verify_tcb_json-IsAccepted}
use ravl.Sgx.Identity.Accepted.{IsIdentified, verify_qe_id-IsIdentified}
use ravl.Sgx.Claims.{Claims, ReportBody, make_report_body_claims, make_full_claims}
use ravl.Sgx.Verify.Sound.{throw_if_and}
use ravl.Sgx.Verify.{
  Evidence, has_responses, certified, find_collateral, prepare_store, check_collateral, verify_full,
  verify,
}

module _ (crypto : OpenSsl) (take_pem : Bytes → Result (Bytes × Bytes)) (json : JsonLibrary)
    (parse_time_point : Bytes → Result ℕ) where
  -- The key is that of the leaf of the verified chain of the issuer, whose root has Intel's key if the
  -- options want it, and it accepts the level.
  pub record IsIssued (issuer_chain text : Bytes) (ext : CertificateExtension)
      (store : crypto.Store) (options : Options) (level : TcbLevel) : Type 0 where
    pub chain : List crypto.X509
    pub store' : crypto.Store
    pub issuer : crypto.X509
    pub root : crypto.X509
    pub key : crypto.Key
    pub chain_verified :
        verify_certificate_chain crypto issuer_chain store options.certificate_verification false
        ≡ ok (chain, store')
    pub at_front : front chain ≡ ok issuer
    pub at_back : back chain ≡ ok root
    pub of_issuer : crypto.public_key issuer ≡ ok key
    pub manufacturer :
        (not options.check_root_certificate_manufacturer_key
          || crypto.has_public_key root intel_root_public_key_pem)
        ≡ true
    pub accepted : IsAccepted json parse_time_point crypto text ext key level

  verify_tcb-IsIssued :
      (issuer_chain text : Bytes) (ext : CertificateExtension) (store : crypto.Store)
      (options : Options) (level : TcbLevel)
      → verify_tcb json parse_time_point crypto issuer_chain text ext store options ≡ ok level
      → IsIssued issuer_chain text ext store options level
  unfolding verify_tcb
  verify_tcb-IsIssued issuer_chain text ext store options level e =
      let ((chain, store'), e₁, f₁) =
        bind_returned
          (verify_certificate_chain crypto issuer_chain store options.certificate_verification
            false)
          _ e in
      let (issuer, e₂, f₂) = bind_returned (front chain) _ e₁ in
      let (root, e₃, f₃) = bind_returned (back chain) _ e₂ in
      let (key, e₄, f₄) = bind_returned (crypto.public_key issuer) _ e₃ in
      let (_, e₅, f₅) =
        bind_returned
          (throw_if
            (options.check_root_certificate_manufacturer_key
              && not (crypto.has_public_key root intel_root_public_key_pem))
            "TCB issuer root certificate does not use the expected Intel SGX public key")
          _ e₄ in
      record {
        chain = chain;
        store' = store';
        issuer = issuer;
        root = root;
        key = key;
        chain_verified = f₁;
        at_front = f₂;
        at_back = f₃;
        of_issuer = f₄;
        manufacturer =
            throw_if_and options.check_root_certificate_manufacturer_key
              (crypto.has_public_key root intel_root_public_key_pem) _ f₅;
        accepted = verify_tcb_json-IsAccepted json parse_time_point crypto text ext key level e₅;
      }

  -- What the collateral says of the certificate's platform and of the quoting enclave.
  pub record IsBacked (evidence : Bytes) (d : SignatureData) (collateral : Collateral)
      (leaf : crypto.X509) (store : crypto.Store) (options : Options) : Type 0 where
    pub ext : CertificateExtension
    pub level : TcbLevel
    pub report : ReportBody
    pub extension : certificate_extension crypto leaf ≡ ok ext
    pub tcb : IsIssued collateral.tcb_info_issuer_chain collateral.tcb_info ext store options level
    pub at_report : make_report_body_claims evidence d.report.offset ≡ ok report
    pub identity :
        IsIdentified json parse_time_point crypto collateral.qe_identity_issuer_chain
          collateral.qe_identity report store options

  check_collateral-IsBacked :
      (evidence : Bytes) (d : SignatureData) (collateral : Collateral) (leaf : crypto.X509)
      (store : crypto.Store) (options : Options) {b : Bool}
      → check_collateral crypto take_pem json parse_time_point evidence d collateral leaf store
          options
        ≡ ok b
      → IsBacked evidence d collateral leaf store options
  unfolding check_collateral
  check_collateral-IsBacked evidence d collateral leaf store options e =
      let (ext, e₁, f₁) = bind_returned (certificate_extension crypto leaf) _ e in
      let (level, e₂, f₂) =
        bind_returned
          (verify_tcb json parse_time_point crypto collateral.tcb_info_issuer_chain
            collateral.tcb_info ext store options)
          _ e₁ in
      let (report, e₃, f₃) =
        bind_returned (make_report_body_claims evidence d.report.offset) _ e₂ in
      record {
        ext = ext;
        level = level;
        report = report;
        extension = f₁;
        tcb =
            verify_tcb-IsIssued collateral.tcb_info_issuer_chain collateral.tcb_info ext store
              options level f₂;
        at_report = f₃;
        identity =
            verify_qe_id-IsIdentified json parse_time_point crypto
              collateral.qe_identity_issuer_chain collateral.qe_identity report store options e₃;
      }

  -- The certificate is the one whose chain and signatures were checked, and the claims are made of
  -- the same evidence and collateral.
  pub record IsUpToDate (att : Evidence) (options : Options) (responses : Option HttpResponses)
      (claims : Claims) : Type 0 where
    pub found : Option Collateral
    pub collateral : Collateral
    pub quote : Span
    pub d : SignatureData
    pub prepared_store : crypto.Store
    pub trusted_root : Bool
    pub crl_chain : List crypto.X509
    pub store : crypto.Store
    pub store' : crypto.Store
    pub leaf : crypto.X509
    pub parsed : parse_quote att.evidence ≡ ok quote
    pub signatures : parse_signature_data take_pem quote att.evidence ≡ ok d
    pub own_or_downloaded : find_collateral crypto take_pem att options responses ≡ ok found
    pub not_null : deref found ≡ ok collateral
    pub prepared : prepare_store crypto take_pem collateral ≡ ok (prepared_store, trusted_root)
    pub crl_chain_verified :
        verify_certificate_chain crypto collateral.pck_crl_issuer_chain prepared_store
          options.certificate_verification trusted_root
        ≡ ok (crl_chain, store)
    pub checked :
        certified crypto take_pem att.evidence quote d options store false ≡ ok (leaf, store')
    pub backed : IsBacked att.evidence d collateral leaf store' options
    pub made : make_full_claims att.evidence d collateral ≡ ok claims

  verify_full-IsUpToDate :
      (att : Evidence) (options : Options) (responses : Option HttpResponses) (claims : Claims)
      → verify_full crypto take_pem json parse_time_point att options responses ≡ ok claims
      → IsUpToDate att options responses claims
  unfolding verify_full
  verify_full-IsUpToDate att options responses claims e =
      let (_, e₁, _) =
        bind_returned
          (throw_if (is_empty att.endorsements && not (has_responses responses))
            "missing endorsements")
          _ e in
      let (found, e₂, f₂) =
        bind_returned (find_collateral crypto take_pem att options responses) _ e₁ in
      let (quote, e₃, f₃) = bind_returned (parse_quote att.evidence) _ e₂ in
      let (d, e₄, f₄) = bind_returned (parse_signature_data take_pem quote att.evidence) _ e₃ in
      let (collateral, e₅, f₅) = bind_returned (deref found) _ e₄ in
      let ((store, trusted_root), e₆, f₆) =
        bind_returned (prepare_store crypto take_pem collateral) _ e₅ in
      let ((crl_chain, store'), e₇, f₇) =
        bind_returned
          (verify_certificate_chain crypto collateral.pck_crl_issuer_chain store
            options.certificate_verification trusted_root)
          _ e₆ in
      let ((leaf, store''), e₈, f₈) =
        bind_returned (certified crypto take_pem att.evidence quote d options store' false) _ e₇ in
      let (_, e₉, f₉) =
        bind_returned
          (check_collateral crypto take_pem json parse_time_point att.evidence d collateral leaf
            store'' options)
          _ e₈ in
      record {
        found = found;
        collateral = collateral;
        quote = quote;
        d = d;
        prepared_store = store;
        trusted_root = trusted_root;
        crl_chain = crl_chain;
        parsed = f₃;
        signatures = f₄;
        prepared = f₆;
        crl_chain_verified = f₇;
        store = store';
        store' = store'';
        leaf = leaf;
        own_or_downloaded = f₂;
        not_null = f₅;
        checked = f₈;
        backed = check_collateral-IsBacked att.evidence d collateral leaf store'' options f₉;
        made = e₉;
      }

  -- Evidence that `verify` accepts in full: there is collateral, its own or from the responses; the
  -- chain of the revocation lists' issuer is verified against the store that is made of it, and the
  -- PCK certificate against the resulting store. The collateral's TCB information is signed by the
  -- leaf of its verified issuer chain, with Intel's key at the root if the options want it, and has a
  -- level that the extension of the checked PCK certificate reaches; its enclave identity is likewise
  -- signed, and has the signer and the product of the quoting enclave's report. The claims are made
  -- of the evidence and this collateral.
  pub verify-IsUpToDate :
      (att : Evidence) (options : Options) (responses : Option HttpResponses) (claims : Claims)
      → options.partial ≡ false
      → verify crypto take_pem json parse_time_point att options responses ≡ ok claims
      → IsUpToDate att options responses claims
  unfolding verify
  verify-IsUpToDate att options responses claims h e =
      verify_full-IsUpToDate att options responses claims (ground (arith, h, e))
