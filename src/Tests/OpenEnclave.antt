-- ===== src/Tests/OpenEnclave.antt =====
-- The theorems on Open Enclave attestations at concrete inputs.
use ravl.Prelude.{zero, suc, ◌≡◌, ◌≢◌, refl, [], ◌∷◌, ◌++◌, none, Bytes, codes, replicate, arith}
use ravl.Result.{ok-injective, ok, err, undefined, runtime_error}
use ravl.Util.Cursor.{put}
use ravl.Sgx.Layout.{bytes_at, number_at, verify_within}
use ravl.Sgx.Collateral.{Collateral, parse_collateral}
use ravl.Sgx.Collateral.RoundTrip.{encode}
use ravl.OpenEnclave.Endorsements.{
  Items, read_table, read_items, read_item, item_size_at, store_element, store_item, put_items,
  put_item, extract_collateral,
}
use ravl.OpenEnclave.Endorsements.Table.{encode_table, items_of}
use ravl.OpenEnclave.Endorsements.RoundTrip.{extract_collateral-encode_table}
use ravl.OpenEnclave.Endorsements.Collateral.{IsExtracted, extract_collateral-parse}
use ravl.Http.Message.{emplace_header, find_header}
use ravl.Crypto.{build_chain, checked_chain, verify_certificate_chain, verify_signature}
use ravl.Sgx.Quote.{
  parse_quote, parse_signature_data, fixed_parts, authentication, certification, to_pem, pem_loop,
}
use ravl.Sgx.Claims.{make_report_body_claims, signature_claims, make_claims}
use ravl.Sgx.Verify.{Evidence, partial_verify, certified, check_pck, check_signatures}
use ravl.OpenEnclave.CustomClaims.{
  verify_size, read_claim, read_claims, read_all, extract_custom_claims,
}
use ravl.OpenEnclave.CustomClaims.Entries.{
  encode_header, encode_claim, extract_custom_claims_second,
}
use ravl.OpenEnclave.CustomClaims.Defined.{HasSmallSizes, extract_custom_claims_defined}
use ravl.OpenEnclave.Extract.{split_quote, extract_endorsements, extract_sgx_attestation}
use ravl.OpenEnclave.Verify.{
  OeClaims, new_attestation, extract, ensure_extracted, verify, prepare_endorsements,
}
use ravl.OpenEnclave.Verify.Sound.{IsAccepted, verify-IsAccepted, verify-prepare_endorsements}
use ravl.OpenEnclave.Verify.Unbound.{verify_replaced_claims}
use ravl.Tests.Library.{library, plain}
use ravl.Tests.Verify.{documents, no_pem, any_time, quote_bytes, partial_options, claims}
use ravl.Sgx

abbrev collateral : Collateral
collateral = record {
  major_version = 3;
  minor_version = 1;
  tee_type = 0;
  root_ca = [];
  pck_crl_issuer_chain = replicate 10 65;
  root_ca_crl = replicate 11 66;
  pck_crl = replicate 12 67;
  tcb_info_issuer_chain = replicate 13 68;
  tcb_info = replicate 14 69;
  qe_identity_issuer_chain = replicate 15 70;
  qe_identity = replicate 16 71;
}

abbrev date : Bytes
date = codes "2023"

abbrev table : Bytes
table = encode_table (items_of collateral date)

extract_collateral-encode_table_example : extract_collateral table ≡ ok (encode collateral)
unfolding encode_table
extract_collateral-encode_table_example =
    extract_collateral-encode_table collateral date (omega arith) (omega arith) (omega arith) refl
      refl refl

extract_collateral-parse_example :
    (c : Items) × (col : Collateral) × (read_table table ≡ ok c)
    × IsExtracted table c col
    × (parse_collateral (encode collateral) ≡ ok col)
unfolding encode_table extract_collateral read_table read_items read_item item_size_at store_element
    store_item put_items put_item bytes_at number_at put
extract_collateral-parse_example =
    extract_collateral-parse table (encode collateral) (omega arith) refl

abbrev custom : Bytes
custom = encode_header 1 ++ (encode_claim (codes "nonce") (1 ∷ 2 ∷ []) ++ [])

abbrev two_claims : Bytes
two_claims =
    encode_header 2
    ++ (encode_claim (codes "attester-id") (7 ∷ []) ++ encode_claim (codes "nonce") (1 ∷ 2 ∷ []))

-- Both claims are well formed, and none is returned.
extract_custom_claims_second_example :
    extract_custom_claims two_claims [] ≡ err (runtime_error "invalid pointer")
extract_custom_claims_second_example =
    extract_custom_claims_second 0 (codes "attester") (codes "-id") (7 ∷ [])
      (encode_claim (codes "nonce") (1 ∷ 2 ∷ [])) [] (omega arith) refl (omega arith) (omega arith)
      (omega arith) (omega arith) (omega arith)

-- The second entry is looked for in the first claim's name.
two_claims-HasSmallSizes : HasSmallSizes two_claims
unfolding number_at bytes_at
two_claims-HasSmallSizes k zero counted inside =
    (λ n e. ground (arith, e), λ v e. ground (arith, e))
two_claims-HasSmallSizes k (suc zero) counted inside =
    (λ n e. ground (arith, e), λ v e. ground (arith, e))
two_claims-HasSmallSizes k (suc (suc i)) counted inside =
    let two : 2 ≡ k = ok-injective 2 k counted in absurd (omega (arith, two, inside))

extract_custom_claims_defined_example : extract_custom_claims two_claims [] ≢ undefined
extract_custom_claims_defined_example =
    extract_custom_claims_defined two_claims [] two_claims-HasSmallSizes

abbrev attestation : Evidence
attestation = record { evidence = quote_bytes ++ custom; endorsements = table }

abbrev accepted : OeClaims
accepted = record { sgx_claims = claims; custom_claims = (codes "nonce", 1 ∷ 2 ∷ []) ∷ [] }

verify-IsAccepted_example :
    IsAccepted library no_pem documents any_time attestation partial_options accepted
unfolding encode_table extract_collateral read_table read_items read_item item_size_at store_element
    store_item put_items put_item bytes_at number_at put Sgx.Verify.verify partial_verify certified
    check_pck check_signatures parse_quote parse_signature_data fixed_parts authentication
    certification to_pem pem_loop verify_within verify_certificate_chain checked_chain build_chain
    verify_signature make_claims signature_claims make_report_body_claims extract_custom_claims
    read_all read_claims read_claim verify_size emplace_header find_header verify ensure_extracted
    extract extract_sgx_attestation split_quote extract_endorsements
verify-IsAccepted_example =
    verify-IsAccepted library no_pem documents any_time attestation partial_options none accepted
      refl refl

verify-prepare_endorsements_example :
    (verify library no_pem documents any_time partial_options none
      (prepare_endorsements library no_pem plain partial_options (new_attestation attestation)).1).0
    ≡ (verify library no_pem documents any_time partial_options none
        (new_attestation attestation)).0
unfolding encode_table
verify-prepare_endorsements_example =
    verify-prepare_endorsements library no_pem documents any_time plain attestation partial_options
      partial_options none refl

verify_replaced_claims_example :
    (verify library no_pem documents any_time partial_options none
      (new_attestation (record { evidence = quote_bytes ++ []; endorsements = table }))).0
    ≡ ok (record accepted { custom_claims = [] })
unfolding encode_table extract_collateral read_table read_items read_item item_size_at store_element
    store_item put_items put_item bytes_at number_at put Sgx.Verify.verify partial_verify certified
    check_pck check_signatures parse_quote parse_signature_data fixed_parts authentication
    certification to_pem pem_loop verify_within verify_certificate_chain checked_chain build_chain
    verify_signature make_claims signature_claims make_report_body_claims extract_custom_claims
    read_all read_claims read_claim verify_size emplace_header find_header verify ensure_extracted
    extract extract_sgx_attestation split_quote extract_endorsements
verify_replaced_claims_example =
    verify_replaced_claims library no_pem documents any_time quote_bytes custom [] table 586
      partial_options none accepted [] (omega arith) refl refl refl refl
