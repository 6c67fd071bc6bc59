-- ===== src/Tests/Aci.antt =====
-- ACI attestations at concrete inputs.
use ravl.Prelude.{
  ℕ, ◌≡◌, refl, true, false, List, [], ◌∷◌, ◌++◌, some, Bytes, codes, bytes_eq, replicate,
  get_elem?, ◌&&◌, ◌==◌, if◌then◌else◌,
}
use ravl.Result.{Result, ok, err, out_of_range, logic_error}
use ravl.Options.{default_options}
use ravl.Json.{JsonLibrary}
use ravl.Util.Hex.{to_hex, hex_digit}
use ravl.Crypto.{build_chain, checked_chain}
use ravl.Sgx.Layout.{bytes_at, number_at}
use ravl.Snp.Urls.{tcb_version_at}
use ravl.Snp.Responses.{check_statuses, parse_direct, parse_url_responses}
use ravl.Snp.Claims.{signature_at, read_report, endorsement_claims, make_claims}
use ravl.Snp.Verify.{
  verify_signature, find_endorsements, find_root, prepare_store, check_root, check_signature,
}
use ravl.Snp.Verify.Sound.{IsEndorsed}
use ravl.Snp.Verify
use ravl.Aci.Cose.{
  ℤ, negsuc, Qcbor, HeaderItems, byte_string, array, next, is_rsa_alg, read_chain, decode_x5chain,
  decode_protected_header,
}
use ravl.Aci.Did.{
  JsonWebKeyType, read_kty, string_at, read_key, read_method, read_methods, read_document, find_key,
  CurveId, curve_id_to_jwk_curve,
}
use ravl.Aci.Roots.{
  UvmEndorsements, uvm_roots_of_trust, did_prefix, matches_uvm_roots_of_trust, matches_any,
  bytes_leb,
}
use ravl.Aci.Roots.Order.{is_known, starts_at_zero, matches_uvm_roots_of_trust_lem}
use ravl.Aci.Endorsements.{
  UvmLibrary, to_base64_digits, from_base64url, rsa_public_key, cose_verify, cert_der_to_pem,
  chain_to_pem, parse_document, choose_key, parse_payload, verify_uvm_endorsements,
}
use ravl.Aci.Endorsements
use ravl.Aci.Verify.{AciAttestation, verify}
use ravl.Aci.Verify.Sound.{IsRooted, verify-IsRooted}
use ravl.Aci.Verify.Complete.{verify_uvm_endorsements_pinned}
use ravl.Tests.Library.{library}
use ravl.Tests.Snp.{evidence, claims, three_answers}

abbrev did : Bytes
did = did_prefix ++ codes "1.4.1.311.76.59.1.2"

abbrev pub find_member : List (Bytes × Bytes) → Bytes → Result Bytes
find_member [] key = err out_of_range
find_member ((k, v) ∷ rest) key = if bytes_eq k key then ok v else find_member rest key

abbrev pub members : List (Bytes × Bytes)
members =
    (codes "kty", codes "RSA")
    ∷ (codes "n", codes "AQ-_")
    ∷ (codes "e", codes "AQAB")
    ∷ (codes "id", did)
    ∷ (codes "type", codes "JsonWebKey2020")
    ∷ (codes "controller", did)
    ∷ (codes "publicKeyJwk", codes "{}")
    ∷ (codes "verificationMethod", codes "[{}]")
    ∷ (codes "assertionMethod", codes "#key-1")
    ∷ (codes "x-ms-sevsnpvm-guestsvn", codes "100")
    ∷ (codes "x-ms-sevsnpvm-launchmeasurement", replicate 96 b'0')
    ∷ []

-- Documents that have all of these members.
abbrev pub json : JsonLibrary
json = record {
  Json = Bytes;
  parse = λ s. ok s;
  at = λ j key. find_member members key;
  is_null = λ j. false;
  contains = λ j key. true;
  get_string = λ j. ok j;
  get_unsigned = λ w j. ok 0;
  elements = λ j. ok (j ∷ []);
}

abbrev items : HeaderItems
items = record {
  alg = some (negsuc 37);
  content_type = some (codes "application/json");
  x5_chain = some array;
  iss = some did;
  feed = some (codes "ContainerPlat-AMD-UVM");
}

abbrev pub qcbor : Qcbor
qcbor = record {
  Context = ℕ;
  enter_array = λ raw. some 0;
  nth_tag_of_last = λ c. 18;
  header_items = λ c. some (items, 1);
  x5_chain_items = λ c. (next (byte_string (1 ∷ [])) ∷ next (byte_string (2 ∷ [])) ∷ [], 2);
  exit_map = λ c. c == 2;
}

abbrev uvm : UvmLibrary library json
uvm = record {
  from_base64 = λ b. ok b;
  rsa_key = λ n e. ok 7;
  sign1_verify = λ k raw. some raw;
  resolve = λ pem did. ok pem;
  at_key = λ j key. find_member members key;
  get_array = λ j. ok (j ∷ []);
}

abbrev att : AciAttestation
att = record { base = evidence; uvm_endorsements = codes "{}" }

header_run :
    decode_protected_header qcbor (codes "{}")
    ≡ ok (record {
      alg = negsuc 37;
      content_type = codes "application/json";
      x5_chain = (1 ∷ []) ∷ (2 ∷ []) ∷ [];
      iss = did;
      feed = codes "ContainerPlat-AMD-UVM";
    })
unfolding decode_protected_header decode_x5chain read_chain
header_run = refl

base64url_run : to_base64_digits (codes "A-_wAA") ≡ codes "A+/wAA=="
unfolding to_base64_digits
base64url_run = refl

okp_run : read_kty JsonWebKeyType.ec (codes "OKP") ≡ ok JsonWebKeyType.ec
unfolding read_kty
okp_run = refl

curve_run : curve_id_to_jwk_curve CurveId.curve25519 ≡ err (logic_error "Unknown curve")
unfolding curve_id_to_jwk_curve
curve_run = refl

abbrev end : UvmEndorsements
end = record { did = did; feed = codes "ContainerPlat-AMD-UVM"; svn = codes "100" }

uvm_run : verify_uvm_endorsements qcbor library json uvm (codes "{}") (replicate 48 0) ≡ ok end
unfolding verify_uvm_endorsements decode_protected_header decode_x5chain read_chain is_rsa_alg
    chain_to_pem cert_der_to_pem parse_document read_document read_methods read_method read_key
    read_kty string_at choose_key find_key Endorsements.verify_signature cose_verify rsa_public_key
    from_base64url to_base64_digits parse_payload to_hex hex_digit matches_uvm_roots_of_trust
    matches_any bytes_leb
uvm_run = refl

verify_uvm_endorsements_pinned_example :
    (ctx : ℕ) × (ctx₁ : ℕ) × (found : HeaderItems) × (alg : ℤ) × (i : ℕ) × (root : UvmEndorsements)
    × (some 0 ≡ some ctx)
    × ((18 == 18) ≡ true)
    × (qcbor.header_items ctx ≡ some (found, ctx₁))
    × (found.alg ≡ some alg)
    × (is_rsa_alg alg ≡ true)
    × (found.content_type ≡ some (codes "application/json"))
    × (get_elem? uvm_roots_of_trust i ≡ some root)
    × (found.iss ≡ some root.did)
    × (found.feed ≡ some root.feed)
verify_uvm_endorsements_pinned_example =
    verify_uvm_endorsements_pinned qcbor library json uvm (codes "{}") (replicate 48 0) end uvm_run

matches_uvm_roots_of_trust_lem_example :
    matches_uvm_roots_of_trust end ≡ (is_known end && starts_at_zero (codes "100"))
matches_uvm_roots_of_trust_lem_example = matches_uvm_roots_of_trust_lem end

snp_run : Verify.verify library evidence default_options (some three_answers) ≡ ok claims
unfolding Verify.verify find_endorsements find_root prepare_store check_root check_signature
    verify_signature parse_url_responses check_statuses parse_direct checked_chain build_chain
    make_claims read_report endorsement_claims signature_at tcb_version_at bytes_at number_at
snp_run = refl

aci_run : verify qcbor library json uvm att default_options (some three_answers) ≡ ok claims
unfolding verify
aci_run = rw snp_run (rw uvm_run refl)

verify-IsRooted_example :
    (Verify.verify library evidence default_options (some three_answers) ≡ ok claims)
    × IsEndorsed library evidence default_options (some three_answers)
    × IsRooted qcbor library json uvm (codes "{}") (replicate 48 0)
verify-IsRooted_example =
    verify-IsRooted qcbor library json uvm att default_options (some three_answers) claims aci_run
