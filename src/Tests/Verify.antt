-- ===== src/Tests/Verify.antt =====
-- The verification of SGX evidence at concrete inputs.
use ravl.Prelude.{
  arith, ℕ, ◌≡◌, ◌≢◌, ◌<◌, length, refl, true, false, List, [], ◌∷◌, ◌++◌, none, Bytes, codes,
  bytes_eq, replicate, if◌then◌else◌,
}
use ravl.Result.{Result, ok, ok-injective, err, runtime_error}
use ravl.Options.{Options, default_options}
use ravl.Tests.Library.{library}
use ravl.Crypto.{build_chain, checked_chain, verify_certificate_chain, verify_signature}
use ravl.Json.{JsonLibrary, signed_part}
use ravl.Util.Hex.{
  from_hex, from_hex_t, little_endian_loop, from_hex_loop, scan_hhx, is_space, scan_field,
  digit_value,
}
use ravl.Sgx.Layout.{Span, bytes_at, number_at, verify_within}
use ravl.Sgx.Quote.{
  SignatureData, parse_quote, parse_signature_data, fixed_parts, authentication, certification,
  to_pem, pem_loop,
}
use ravl.Sgx.Extension.{CertificateExtension}
use ravl.Sgx.Claims.{Claims, ReportBody, make_report_body_claims, signature_claims, make_claims}
use ravl.Sgx.Verify.{Evidence, verify, partial_verify, certified, check_pck, check_signatures}
use ravl.Sgx.Verify.Sound.{IsGenuine, verify-IsGenuine}
use ravl.Sgx.Tcb.{
  TcbLevel, verify_tcb_json, read_tcb_info, check_version, check_dates, check_platform, find_level,
  check_datetime, string_at, number_of, json_vector_eq, levels_loop, read_level, level_comp_svns,
}
use ravl.Sgx.Tcb.Accepted.{IsAccepted, verify_tcb_json-IsAccepted}
use ravl.Sgx.Identity.{
  verify_qe_id, read_identity, check_kind, find_qe_level, qe_levels_loop, read_qe_level,
  check_qe_dates, check_signer, check_misc_select, check_attributes,
}
use ravl.Sgx.Identity.Accepted.{IsIdentified, verify_qe_id-IsIdentified}
use ravl.Sgx.Quote.Pem.{TakesBytes, to_pem_defined}
use ravl.Sgx.Quote.Bounds.{AllWithin, raw_certification, parse_signature_data-AllWithin}

pub data Document : Type 0 where
  object : Document
  number : ℕ → Document
  text : Bytes → Document

abbrev find_member : List (Bytes × Document) → Bytes → Document
find_member [] key = number 0
find_member ((k, v) ∷ members) key = if bytes_eq k key then v else find_member members key

-- Every object has these members, and those of other names are 0.
abbrev members : List (Bytes × Document)
members =
    (codes "tcbInfo", object)
    ∷ (codes "version", number 2)
    ∷ (codes "issueDate", text (codes "2020"))
    ∷ (codes "nextUpdate", text (codes "2021"))
    ∷ (codes "fmspc", text (codes "00"))
    ∷ (codes "pceId", text (codes "01"))
    ∷ (codes "tcbLevels", object)
    ∷ (codes "tcb", object)
    ∷ (codes "tcbDate", text (codes "2020"))
    ∷ (codes "tcbStatus", text (codes "UpToDate"))
    ∷ (codes "enclaveIdentity", object)
    ∷ (codes "id", text (codes "QE"))
    ∷ (codes "mrsigner", text (replicate 64 b'0'))
    ∷ (codes "miscselectMask", text (replicate 8 b'0'))
    ∷ (codes "miscselect", text (replicate 8 b'0'))
    ∷ (codes "attributes", text (replicate 32 b'0'))
    ∷ (codes "attributesMask", text (replicate 32 b'0'))
    ∷ (codes "signature", text [])
    ∷ []

abbrev as_string : Document → Result Bytes
as_string (text s) = ok s
as_string object = err (runtime_error "not a string")
as_string (number n) = err (runtime_error "not a string")

abbrev as_number : ℕ → Document → Result ℕ
as_number w (number n) = ok n
as_number w object = err (runtime_error "not a number")
as_number w (text s) = err (runtime_error "not a number")

abbrev pub documents : JsonLibrary
documents = record {
  Json = Document;
  parse = λ s. ok object;
  at = λ j key. ok (find_member members key);
  is_null = λ j. false;
  contains = λ j key. true;
  get_string = as_string;
  get_unsigned = as_number;
  elements = λ j. ok (object ∷ []);
}

abbrev pub no_pem : Bytes → Result (Bytes × Bytes)
no_pem bio = err (runtime_error "no certificate")

abbrev pub any_time : Bytes → Result ℕ
any_time date = ok 0

-- A quote with one byte of authentication data and one of certification data.
abbrev pub quote_bytes : Bytes
quote_bytes =
    (3 ∷ 0 ∷ 2 ∷ 0 ∷ [])
    ++ (replicate 428 0
        ++ ((74 ∷ 2 ∷ 0 ∷ 0 ∷ [])
            ++ (replicate 576 0 ++ (1 ∷ 0 ∷ 7 ∷ 5 ∷ 0 ∷ 1 ∷ 0 ∷ 0 ∷ 0 ∷ 9 ∷ []))))

abbrev evidence : Evidence
evidence = record { evidence = quote_bytes; endorsements = [] }

abbrev pub partial_options : Options
partial_options = record default_options { partial = true }

abbrev extension : CertificateExtension
extension = record {
  ppid = [];
  tcb = record { comp_svn = replicate 16 0; pce_svn = 0; cpu_svn = [] };
  pceid = 1 ∷ [];
  fmspc = 0 ∷ [];
  sgx_type = false;
  platform_instance_id = none;
  configuration = none;
}

abbrev level : TcbLevel
level = record {
  comp_svn = replicate 16 0;
  pce_svn = 0;
  status = codes "UpToDate";
  date = codes "2020";
}

abbrev pub tcb_text : Bytes
tcb_text = codes "{\"tcbInfo\":{},\"signature\":\"\"}"

verify_tcb_json-IsAccepted_example :
    IsAccepted documents any_time library tcb_text extension 0 level
unfolding verify_tcb_json read_tcb_info check_version check_dates check_platform find_level
    check_datetime string_at number_of json_vector_eq levels_loop read_level level_comp_svns
    signed_part verify_signature from_hex from_hex_loop scan_hhx is_space scan_field digit_value
verify_tcb_json-IsAccepted_example =
    verify_tcb_json-IsAccepted documents any_time library tcb_text extension 0 level refl

abbrev signature_data : SignatureData
signature_data = record {
  quote_signature = record { offset = 436; size = 64 };
  public_key = record { offset = 500; size = 64 };
  report = record { offset = 564; size = 384 };
  report_signature = record { offset = 948; size = 64 };
  report_data = record { offset = 884; size = 64 };
  auth_data = record { offset = 1014; size = 1 };
  cd_raw = 1015;
  certification_data = 9 ∷ [];
}

abbrev quote_span : Span
quote_span = record { offset = 0; size = 432 }

parse_signature_data-AllWithin_example :
    AllWithin no_pem signature_data quote_bytes
    × (raw_certification signature_data.cd_raw quote_bytes ≢ Result.undefined)
unfolding parse_signature_data fixed_parts authentication certification to_pem pem_loop bytes_at
    number_at verify_within
parse_signature_data-AllWithin_example =
    parse_signature_data-AllWithin no_pem quote_span quote_bytes signature_data
      signature_data.cd_raw refl (omega arith)

abbrev pub body_claims : ReportBody
body_claims = record {
  cpu_svn = replicate 16 0;
  misc_select = 0;
  isv_ext_prod_id = replicate 16 0;
  attributes = record { flags = 0; xfrm = 0 };
  mr_enclave = replicate 32 0;
  mr_signer = replicate 32 0;
  config_id = replicate 64 0;
  isv_prod_id = 0;
  isv_svn = 0;
  config_svn = 0;
  isv_family_id = replicate 16 0;
  report_data = replicate 64 0;
}

abbrev pub claims : Claims
claims = record {
  version = 3;
  sign_type = 2;
  epid_group_id = replicate 4 0;
  qe_svn = 0;
  pce_svn = 0;
  xeid = 0;
  basename = replicate 32 0;
  report_body = body_claims;
  signature_data = record {
    signature = replicate 64 0;
    attest_pub_key = replicate 64 0;
    qe_report = body_claims;
    qe_report_sig = replicate 64 0;
    auth_data = 7 ∷ [];
  };
  endorsements = none;
}

verify-IsGenuine_example :
    (store : Unit {0}) × IsGenuine library no_pem quote_bytes partial_options store true
unfolding verify partial_verify certified check_pck check_signatures parse_quote
    parse_signature_data fixed_parts authentication certification to_pem pem_loop bytes_at number_at
    verify_within verify_certificate_chain checked_chain build_chain verify_signature make_claims
    signature_claims make_report_body_claims
verify-IsGenuine_example =
    verify-IsGenuine library no_pem documents any_time evidence partial_options none claims refl

-- A quoting enclave that is newer than the level.
abbrev qe_report : ReportBody
qe_report = record body_claims { isv_svn = 1 }

abbrev pub identity_text : Bytes
identity_text = codes "{\"enclaveIdentity\":{},\"signature\":\"\"}"

verify_qe_id-IsIdentified_example :
    IsIdentified documents any_time library [] identity_text qe_report tt default_options
unfolding verify_qe_id read_identity check_kind find_qe_level qe_levels_loop read_qe_level
    check_qe_dates check_signer check_misc_select check_attributes verify_certificate_chain
    checked_chain build_chain check_datetime string_at number_of signed_part verify_signature
    from_hex from_hex_t little_endian_loop from_hex_loop scan_hhx is_space scan_field digit_value
verify_qe_id-IsIdentified_example =
    verify_qe_id-IsIdentified documents any_time library [] identity_text qe_report tt
      default_options {b = true} refl

-- A library whose certificates are single bytes.
abbrev one_byte : Bytes → Result (Bytes × Bytes)
one_byte [] = err (runtime_error "no certificate")
one_byte (b ∷ bs) = ok (b ∷ [], bs)

one_byte_total : (bio : Bytes) → one_byte bio ≢ Result.undefined
one_byte_total [] = cc
one_byte_total (b ∷ bs) = cc

one_byte_shorter :
    (bio printed rest : Bytes) → one_byte bio ≡ ok (printed, rest) → length rest < length bio
one_byte_shorter [] printed rest e = absurd cc
one_byte_shorter (b ∷ bs) printed rest e =
    ground (arith, ok-injective (b ∷ [], bs) (printed, rest) e)

one_byte-TakesBytes : TakesBytes one_byte
one_byte-TakesBytes = record { total = one_byte_total; shorter = one_byte_shorter }

to_pem_defined_example : to_pem one_byte (48 ∷ 130 ∷ 4 ∷ 0 ∷ 48 ∷ 130 ∷ []) ≢ Result.undefined
to_pem_defined_example =
    to_pem_defined one_byte one_byte-TakesBytes (48 ∷ 130 ∷ 4 ∷ 0 ∷ 48 ∷ 130 ∷ [])
