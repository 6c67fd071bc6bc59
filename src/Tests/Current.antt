-- ===== src/Tests/Current.antt =====
-- A full verification of SGX evidence with downloaded endorsements.
use ravl.Prelude.{
  none, ◌≡◌, refl, [], ◌∷◌, ◌++◌, some, Bytes, codes, replicate, ◌==◌, if◌then◌else◌,
}
use ravl.Result.{ok}
use ravl.Options.{default_options}
use ravl.Http.Message.{
  HttpResponse, HttpResponses, Headers, get_header_string, get_header_data, find_header,
}
use ravl.Crypto.{OpenSsl, build_chain, checked_chain, verify_certificate_chain, verify_signature}
use ravl.Json.{signed_part}
use ravl.Util.Hex.{
  from_hex, from_hex_t, little_endian_loop, from_hex_loop, scan_hhx, is_space, scan_field,
  digit_value, to_lower,
}
use ravl.Util.Url.{url_decode, url_decode_chars, until_nul}
use ravl.Sgx.Collateral.{Collateral, new_collateral}
use ravl.Sgx.Consume.{
  consume_url_responses, expected_responses, consume_root, consume_collateral, response_at,
}
use ravl.Sgx.Layout.{bytes_at, number_at, verify_within}
use ravl.Sgx.Quote.{
  parse_quote, parse_signature_data, fixed_parts, authentication, certification, to_pem, pem_loop,
}
use ravl.Sgx.Extension.{certificate_extension, get_tcb_ext, comp_svns}
use ravl.Sgx.Tcb.{
  verify_tcb, verify_tcb_json, read_tcb_info, check_version, check_dates, check_platform,
  find_level, check_datetime, string_at, number_of, json_vector_eq, levels_loop, read_level,
  level_comp_svns,
}
use ravl.Sgx.Identity.{
  verify_qe_id, read_identity, check_kind, find_qe_level, qe_levels_loop, read_qe_level,
  check_qe_dates, check_signer, check_misc_select, check_attributes,
}
use ravl.Sgx.Claims.{
  Claims, make_report_body_claims, signature_claims, make_claims, make_full_claims,
}
use ravl.Sgx.Verify.Root.{verify_ignores_root}
use ravl.Sgx.Collateral.RoundTrip.{encode}
use ravl.Sgx.Verify.{
  Evidence, certified, check_pck, check_signatures, find_collateral, prepare_store,
  check_collateral, verify_full, verify,
}
use ravl.Sgx.Verify.Current.{IsUpToDate, verify-IsUpToDate}
use ravl.Tests.Library.{library}
use ravl.Tests.Verify.{documents, no_pem, any_time, tcb_text, identity_text, claims, body_claims}

-- Sequences are their sizes: five extensions, and 18 parts of the TCB.
abbrev with_extension : OpenSsl
with_extension = record library {
  extension = λ c oid. ok 5;
  size = λ s. s;
  get_seq = λ s i oid. ok 18;
  get_octet_string =
      λ s i oid. ok (if i == 17 then replicate 16 0 else if i == 3 then 0 ∷ [] else 1 ∷ []);
}

-- As `quote_bytes`, with a quoting enclave of version 1.
abbrev newer_quote : Bytes
newer_quote =
    (3 ∷ 0 ∷ 2 ∷ 0 ∷ [])
    ++ (replicate 428 0
        ++ ((74 ∷ 2 ∷ 0 ∷ 0 ∷ [])
            ++ (replicate 386 0
                ++ ((1 ∷ 0 ∷ [])
                    ++ (replicate 188 0 ++ (1 ∷ 0 ∷ 7 ∷ 5 ∷ 0 ∷ 1 ∷ 0 ∷ 0 ∷ 0 ∷ 9 ∷ []))))))

abbrev evidence : Evidence
evidence = record { evidence = newer_quote; endorsements = [] }

abbrev chains : Headers
chains =
    (codes "SGX-TCB-Info-Issuer-Chain", 65 ∷ [])
    ∷ (codes "SGX-PCK-CRL-Issuer-Chain", 66 ∷ [])
    ∷ (codes "SGX-Enclave-Identity-Issuer-Chain", 67 ∷ [])
    ∷ []

abbrev answer : Bytes → HttpResponse
answer body = record { status = 200; headers = chains; body = body }

abbrev answers : HttpResponses
answers =
    answer (1 ∷ [])
    ∷ answer (2 ∷ [])
    ∷ answer tcb_text
    ∷ answer (3 ∷ [])
    ∷ answer identity_text
    ∷ []

abbrev collateral : Collateral
collateral = record new_collateral {
  root_ca = 1 ∷ [];
  root_ca_crl = 2 ∷ [];
  pck_crl_issuer_chain = 66 ∷ [];
  pck_crl = 3 ∷ [];
  tcb_info_issuer_chain = 65 ∷ [];
  tcb_info = 65 ∷ [];
  qe_identity_issuer_chain = 67 ∷ [];
  qe_identity = identity_text;
}

abbrev full_claims : Claims
full_claims = record claims {
  signature_data = record {
    signature = replicate 64 0;
    attest_pub_key = replicate 64 0;
    qe_report = record body_claims { isv_svn = 1 };
    qe_report_sig = replicate 64 0;
    auth_data = 7 ∷ [];
  };
  endorsements = some collateral;
}

verify-IsUpToDate_example :
    IsUpToDate with_extension no_pem documents any_time evidence default_options
      (some answers)
      full_claims
unfolding verify verify_full find_collateral prepare_store certified check_pck check_signatures
    check_collateral consume_url_responses expected_responses consume_root consume_collateral
    response_at get_header_string get_header_data find_header url_decode url_decode_chars until_nul
    to_lower verify_tcb verify_tcb_json read_tcb_info check_version check_dates check_platform
    find_level check_datetime string_at number_of json_vector_eq levels_loop read_level
    level_comp_svns verify_qe_id read_identity check_kind find_qe_level qe_levels_loop read_qe_level
    check_qe_dates check_signer check_misc_select check_attributes certificate_extension get_tcb_ext
    comp_svns parse_quote parse_signature_data fixed_parts authentication certification to_pem
    pem_loop bytes_at number_at verify_within verify_certificate_chain checked_chain build_chain
    verify_signature make_claims signature_claims make_report_body_claims make_full_claims
    signed_part from_hex from_hex_t little_endian_loop from_hex_loop scan_hhx is_space scan_field
    digit_value
verify-IsUpToDate_example =
    verify-IsUpToDate with_extension no_pem documents any_time evidence default_options
      (some answers) full_claims refl refl

abbrev endorsed : Evidence
endorsed = record { evidence = newer_quote; endorsements = encode collateral }

verify_ignores_root_example :
    verify with_extension no_pem documents any_time endorsed
      (record default_options { root_ca_certificate = some (82 ∷ []) })
      none
    ≡ verify with_extension no_pem documents any_time endorsed default_options none
unfolding find_collateral
verify_ignores_root_example =
    verify_ignores_root with_extension no_pem documents any_time endorsed default_options
      (some (82 ∷ [])) none refl
