-- ===== src/Tests/Capi.antt =====
-- The C interface at a concrete input: an ACI attestation with its endorsements.
use ravl.Prelude.{◌≡◌, refl, true, List, [], ◌∷◌, none, some, Bytes, codes}
use ravl.Result.{Exception, ok}
use ravl.Crypto.{OpenSsl, build_chain, checked_chain}
use ravl.Util.Hex.{to_hex, hex_digit}
use ravl.Attestation.{
  Source, Attestation, Documents, parse_attestation, parse, read_attestation, read_member,
  read_optional,
}
use ravl.Sgx.Layout.{bytes_at, number_at}
use ravl.Snp.Urls.{tcb_version_at}
use ravl.Snp.Claims.{Claims, signature_at, read_report, endorsement_claims, make_claims}
use ravl.Snp.Verify.{
  verify_signature, find_endorsements, find_root, prepare_store, check_root, check_signature,
}
use ravl.Snp
use ravl.Aci
use ravl.Aci.Cose.{is_rsa_alg, read_chain, decode_x5chain, decode_protected_header}
use ravl.Aci.Did.{read_kty, string_at, read_key, read_method, read_methods, read_document, find_key}
use ravl.Aci.Roots.{matches_uvm_roots_of_trust, matches_any, bytes_leb}
use ravl.Aci.Endorsements.{
  UvmLibrary, to_base64_digits, from_base64url, rsa_public_key, cose_verify, cert_der_to_pem,
  chain_to_pem, parse_document, choose_key, parse_payload, verify_uvm_endorsements,
}
use ravl.Capi.{
  RavlOptions, cpp_options, Status, LastException, verify_attestation, verify_attestation_json,
  evidence_of,
}
use ravl.Capi.Accepted.{IsSelfContained, verify_attestation_json-IsSelfContained}
use ravl.Tests.Library.{library}
use ravl.Tests.Verify.{no_pem, any_time}
use ravl.Tests.Snp.{evidence, claims}
use ravl.Tests.Aci.{json, qcbor, find_member, members}

-- The endorsements are a chain of three.
abbrev three : OpenSsl
three = record library { read_stack = λ b. ok (3 ∷ 1 ∷ 2 ∷ []) }

abbrev uvm : UvmLibrary three json
uvm = record {
  from_base64 = λ b. ok b;
  rsa_key = λ n e. ok 7;
  sign1_verify = λ k raw. some raw;
  resolve = λ pem did. ok pem;
  at_key = λ j key. find_member members key;
  get_array = λ j. ok (j ∷ []);
}

abbrev attestation_members : List (Bytes × Bytes)
attestation_members =
    (codes "source", codes "aci")
    ∷ (codes "evidence", evidence.evidence)
    ∷ (codes "endorsements", 1 ∷ [])
    ∷ (codes "uvm_endorsements", codes "{}")
    ∷ []

abbrev documents : Documents
documents = record {
  Json = Bytes;
  at = λ j key. find_member attestation_members key;
  contains = λ j key. true;
  get_string = λ j. ok j;
  get_bytes = λ j. ok j;
  of_string = λ s. s;
  of_bytes = λ s. s;
  object = λ ms. [];
  parse = λ s. ok s;
  dump = λ j. j;
  from_cbor = λ b. ok b;
  to_cbor = λ j. j;
}

abbrev what : Exception → Bytes
what e = codes "failed"

abbrev start : LastException
start = record { message_string = codes "failed"; message = some (codes "failed") }

abbrev reset : LastException
reset = record { message_string = []; message = none }

abbrev att : Attestation
att = record {
  source = Source.aci;
  evidence = evidence.evidence;
  endorsements = 1 ∷ [];
  uvm_endorsements = some (codes "{}");
}

abbrev c_options : RavlOptions
c_options = record {
  verbosity = 2;
  ignore_time = 1;
  verification_time = some 1700000000;
  fresh_endorsements = 0;
  fresh_root_ca_certificate = 0;
  root_ca_certificate = none;
  check_root_certificate_manufacturer_key = 1;
  sgx_endorsement_cache_url_template = none;
  sev_snp_endorsement_cache_url_template = none;
  http_timeout = 30;
  http_max_attempts = 3;
  historical = 0;
}

read_run : parse_attestation documents (λ b. b) (λ s. ok s) (codes "{}") ≡ ok att
unfolding parse_attestation parse read_attestation read_member read_optional
read_run = refl

abbrev snp_claims_run : Claims
snp_claims_run = record claims {
  endorsements = record {
    root_ca_certificate = 2 ∷ [];
    vcek_certificate_chain = 3 ∷ 1 ∷ 2 ∷ [];
    vcek_issuer_chain_crl = none;
  };
}

snp_run :
    Snp.Verify.verify three (evidence_of att) (cpp_options (some c_options)) none
    ≡ ok snp_claims_run
unfolding Snp.Verify.verify find_endorsements find_root prepare_store check_root check_signature
    verify_signature checked_chain build_chain make_claims read_report endorsement_claims
    signature_at tcb_version_at bytes_at number_at cpp_options
snp_run = refl

uvm_run :
    (e : Aci.Roots.UvmEndorsements) × (verify_uvm_endorsements qcbor three json uvm
        (codes "{}")
        snp_claims_run.report.measurement
      ≡ ok e)
unfolding verify_uvm_endorsements decode_protected_header decode_x5chain read_chain is_rsa_alg
    chain_to_pem cert_der_to_pem parse_document read_document read_methods read_method read_key
    read_kty string_at choose_key find_key Aci.Endorsements.verify_signature cose_verify
    rsa_public_key from_base64url to_base64_digits parse_payload to_hex hex_digit
    matches_uvm_roots_of_trust matches_any bytes_leb
uvm_run = (_, refl)

json_run :
    verify_attestation_json three no_pem json any_time qcbor uvm what documents
      (λ b. b)
      (λ s. ok s)
      (codes "{}")
      (some c_options)
      start
    ≡ (ok Status.ravl_ok, reset)
unfolding verify_attestation_json verify_attestation Aci.Verify.verify
json_run = rw read_run (rw snp_run (rw (uvm_run.1) refl))

verify_attestation_json-IsSelfContained_example :
    IsSelfContained three no_pem json any_time qcbor uvm what
      (parse_attestation documents (λ b. b) (λ s. ok s) (codes "{}"))
      (some c_options)
    × (reset.message ≡ none)
verify_attestation_json-IsSelfContained_example =
    verify_attestation_json-IsSelfContained three no_pem json any_time qcbor uvm what documents
      (λ b. b) (λ s. ok s) (codes "{}") (some c_options) start reset json_run
