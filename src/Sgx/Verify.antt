-- ===== src/Sgx/Verify.antt =====
-- `prepare_endorsements`, `partial_verify` and `verify` of include/ravl/sgx_impl.h.
pub mod Sound
pub mod Root
pub mod Current
use ravl.Prelude.{
  ℕ, ◌+◌, Bool, true, false, not, ◌&&◌, ◌||◌, List, [], ◌∷◌, ◌++◌, Option, none, some, Bytes, codes,
  bytes_eq, length, take, drop, leb, ltb, ◌==◌, if◌then◌else◌,
}
use ravl.Result.{Result, ok, throw_if, rethrow, deref, ◌>>=◌, ◌>>◌}
use ravl.Options.{Options}
use ravl.Http.Message.{HttpRequests, HttpResponses}
use ravl.Crypto.{
  OpenSsl, front, back, verify_certificate_chain, verify_signature, extract_pem_certificate,
}
use ravl.Json.{JsonLibrary}
use ravl.Util.Hex.{to_hex}
use ravl.Sgx.Layout.{Span, bytes_at}
use ravl.Sgx.Collateral.{Collateral, parse_collateral}
use ravl.Sgx.Consume.{is_empty, consume_url_responses}
use ravl.Sgx.Urls.{download_root_ca_pem, download_collateral}
use ravl.Sgx.Extension.{certificate_extension}
use ravl.Sgx.Quote.{SignatureData, parse_quote, parse_signature_data}
use ravl.Sgx.Tcb.{intel_root_public_key_pem, verify_tcb}
use ravl.Sgx.Identity.{verify_qe_id}
use ravl.Sgx.Claims.{Claims, span_bytes, make_report_body_claims, make_claims, make_full_claims}

pub record Evidence : Type 0 where
  pub evidence : Bytes
  pub endorsements : Bytes

abbrev pub is_all_zero : Bytes → Bool
is_all_zero [] = true
is_all_zero (b ∷ bs) = b == 0 && is_all_zero bs

abbrev pub has_responses : Option HttpResponses → Bool
has_responses none = false
has_responses (some []) = false
has_responses (some (r ∷ rs)) = true

-- The libraries, and fmt's `vformat`.
module _ (crypto : OpenSsl) (take_pem : Bytes → Result (Bytes × Bytes)) where
  module _ (vformat : Bytes → List Bytes → Result Bytes) where
    abbrev pub ca_type : Option Bytes → Bytes
    ca_type none = codes "processor"
    ca_type (some id) = if is_all_zero id then codes "processor" else codes "platform"

    -- The certificates are not verified here.
    unfoldable pub prepare_collateral : Bytes → Options → Result HttpRequests
    prepare_collateral certification_data options = do
      pck_leaf ← crypto.read_pem (extract_pem_certificate certification_data)
      ext ← certificate_extension crypto pck_leaf
      download_collateral vformat (ca_type ext.platform_instance_id) (to_hex ext.fmspc) options
          false

    unfoldable pub prepare_endorsements : Evidence → Options → Result (Option HttpRequests)
    unfolding prepare_collateral
    prepare_endorsements att options =
        if (not (is_empty att.endorsements)
            && not options.fresh_endorsements
            && not options.fresh_root_ca_certificate)
          || options.partial
        then ok none
        else parse_quote att.evidence >>= (λ quote.
          parse_signature_data take_pem quote att.evidence >>= (λ d.
            if not (is_empty att.endorsements) && not options.fresh_endorsements
            then ok (elim options.root_ca_certificate [
              | none ↦ some download_root_ca_pem
              | some root ↦ none
            ])
            else prepare_collateral d.certification_data options >>= (λ rs. ok (some rs))))

  -- The checks that both verifications make of the PCK certificate chain.
  unfoldable pub check_pck : List crypto.X509 → Options → Result crypto.X509
  check_pck chain options = do
    leaf ← front chain
    root ← back chain
    throw_if (not (crypto.has_common_name leaf (codes "Intel SGX PCK Certificate")))
        "PCK certificate does not have expected common name"
    throw_if
        (options.check_root_certificate_manufacturer_key
          && not (crypto.has_public_key root intel_root_public_key_pem))
        "root CA certificate does not have the expected Intel SGX public key"
    throw_if (not (crypto.is_ca root)) "root certificate is not from a CA"
    ok leaf

  -- The signatures of the quoting enclave and of the quote, and the hash that binds their keys.
  unfoldable pub check_signatures : Bytes → Span → SignatureData → crypto.X509 → Result (Unit {0})
  check_signatures evidence quote d leaf = do
    leaf_key ← crypto.public_key leaf
    report ← span_bytes evidence d.report
    report_signature ← span_bytes evidence d.report_signature
    qe_sig_ok ← verify_signature crypto leaf_key report report_signature
    throw_if (not qe_sig_ok) "QE signature verification failed"
    public_key ← span_bytes evidence d.public_key
    quote_key ← crypto.p256_key public_key
    signed ← span_bytes evidence quote
    quote_signature ← span_bytes evidence d.quote_signature
    quote_sig_ok ← verify_signature crypto quote_key signed quote_signature
    throw_if (not quote_sig_ok) "quote signature verification failed"
    auth_data ← span_bytes evidence d.auth_data
    expected ← bytes_at evidence d.report_data.offset 32
    throw_if (not (bytes_eq (crypto.digest (public_key ∷ auth_data ∷ [])) expected))
        "QE authentication message hash mismatch"

  -- The chain of the PCK certificate and what it vouches for: the certificate, and the store.
  unfoldable pub certified :
      Bytes
      → Span
      → SignatureData
      → Options
      → crypto.Store
      → Bool
      → Result (crypto.X509 × crypto.Store)
  unfolding check_pck check_signatures
  certified evidence quote d options store trusted_root = do
    (chain, store') ←
        verify_certificate_chain crypto d.certification_data store options.certificate_verification
          trusted_root
    leaf ← check_pck chain options
    check_signatures evidence quote d leaf
    ok (leaf, store')

  unfoldable pub partial_verify : Bytes → Options → Result Claims
  unfolding certified
  partial_verify evidence options = do
    quote ← parse_quote evidence
    d ← parse_signature_data take_pem quote evidence
    certified evidence quote d options crypto.new_store true
    make_claims evidence d

  -- The collateral of the attestation, and of the responses if there are any.
  unfoldable pub find_collateral :
      Evidence → Options → Option HttpResponses → Result (Option Collateral)
  find_collateral att options responses = do
    own ←
        (if is_empty att.endorsements
          then ok none
          else (parse_collateral att.endorsements >>= (λ c. ok (some c))))
    if has_responses responses
        then deref responses
          >>= (λ rs. consume_url_responses options rs own false >>= (λ c. ok (some c)))
        else ok own

  -- The store with the revocation lists and, if the collateral has one, the root certificate; and
  -- whether the root of the issuer chain is trusted.
  unfoldable pub prepare_store : Collateral → Result (crypto.Store × Bool)
  prepare_store collateral = do
    store ← crypto.add_crl crypto.new_store collateral.root_ca_crl
    store' ← crypto.add_crl store collateral.pck_crl
    if is_empty collateral.root_ca
        then ok (store', true)
        else (crypto.add_pem store' collateral.root_ca >>= (λ store''. ok (store'', false)))

  module _ (json : JsonLibrary) (parse_time_point : Bytes → Result ℕ) where
    -- The TCB information and the identity of the quoting enclave.
    unfoldable pub check_collateral :
        Bytes → SignatureData → Collateral → crypto.X509 → crypto.Store → Options → Result Bool
    check_collateral evidence d collateral leaf store options = do
      ext ← certificate_extension crypto leaf
      level ←
          verify_tcb json parse_time_point crypto collateral.tcb_info_issuer_chain
            collateral.tcb_info ext store options
      report ← make_report_body_claims evidence d.report.offset
      verify_qe_id json parse_time_point crypto collateral.qe_identity_issuer_chain
          collateral.qe_identity report store options

    unfoldable pub verify_full : Evidence → Options → Option HttpResponses → Result Claims
    unfolding find_collateral prepare_store certified check_collateral
    verify_full att options responses = do
      throw_if (is_empty att.endorsements && not (has_responses responses)) "missing endorsements"
      found ← find_collateral att options responses
      quote ← parse_quote att.evidence
      d ← parse_signature_data take_pem quote att.evidence
      collateral ← deref found
      (store, trusted_root) ← prepare_store collateral
      (_, store') ←
          verify_certificate_chain crypto collateral.pck_crl_issuer_chain store
            options.certificate_verification trusted_root
      (leaf, store'') ← certified att.evidence quote d options store' false
      check_collateral att.evidence d collateral leaf store'' options
      make_full_claims att.evidence d collateral

    unfoldable pub verify : Evidence → Options → Option HttpResponses → Result Claims
    unfolding partial_verify verify_full
    verify att options responses =
        if options.partial
        then partial_verify att.evidence options
        else verify_full att options responses
