-- ===== src/Aci/Endorsements.antt =====
-- `verify_uvm_endorsements` of include/ravl/uvm_endorsements.h, and the verifier of
-- include/ravl/cose_verifier_impl.h with the RSA keys of include/ravl/crypto.h.
use ravl.Prelude.{
  ℕ, String, ◌%◌, Bool, not, List, [], ◌∷◌, ◌++◌, map, Option, none, some, Bytes, codes, bytes_eq,
  length, ◌==◌, replicate, if◌then◌else◌,
}
use ravl.Result.{Result, ok, err, runtime_error, logic_error, rethrow, ◌>>=◌, ◌>>◌}
use ravl.Util.Hex.{to_hex}
use ravl.Crypto.{OpenSsl}
use ravl.Json.{JsonLibrary}
use ravl.Aci.Cose.{Qcbor, is_rsa_alg, decode_protected_header}
use ravl.Aci.Did.{
  JsonWebKeyRsaPublic, VerificationMethod, DidDocument, string_at, read_document, find_key,
}
use ravl.Aci.Roots.{UvmEndorsements, matches_uvm_roots_of_trust}

-- `from_base64url`: the other two digits, and the padding.
abbrev pub base64_digit : ℕ → ℕ
base64_digit c = if c == b'-' then b'+' else if c == b'_' then b'/' else c

abbrev pub padding : ℕ → ℕ
padding size = if size % 4 == 2 then 2 else if size % 4 == 3 then 1 else 0

unfoldable pub to_base64_digits : Bytes → Bytes
to_base64_digits b64url = map base64_digit b64url ++ replicate (padding (length b64url)) b'='

-- `if (bad) throw std::logic_error(message);`
abbrev pub check : Bool → String → Result (Unit {0})
check bad message = if bad then err (logic_error message) else ok tt

-- What the checks of the endorsements call, besides QCBOR: OpenSSL's base 64 and its RSA keys of a
-- modulus and an exponent, t_cose, which returns the payload that is signed, the resolver of
-- didx509, and, of the JSON library, `at`, which throws for a missing key, and `get` of a vector.
pub record UvmLibrary (crypto : OpenSsl) (json : JsonLibrary) : Type 0 where
  pub from_base64 : Bytes → Result Bytes
  pub rsa_key : Bytes → Bytes → Result crypto.Key
  pub sign1_verify : crypto.Key → Bytes → Option Bytes
  pub resolve : Bytes → Bytes → Result Bytes
  pub at_key : json.Json → Bytes → Result json.Json
  pub get_array : json.Json → Result (List json.Json)

pub record UvmEndorsementsPayload : Type 0 where
  pub sevsnpvm_guest_svn : Bytes
  pub sevsnpvm_launch_measurement : Bytes

module _ (qcbor : Qcbor) (crypto : OpenSsl) (json : JsonLibrary)
    (uvm : UvmLibrary crypto json) where
  unfoldable pub from_base64url : Bytes → Result Bytes
  unfolding to_base64_digits
  from_base64url b64url = uvm.from_base64 (to_base64_digits b64url)

  -- `UqEVP_PKEY_RSA`
  unfoldable pub rsa_public_key : JsonWebKeyRsaPublic → Result crypto.Key
  unfolding from_base64url
  rsa_public_key pubkey = do
    n ← from_base64url pubkey.n
    e ← from_base64url pubkey.e
    uvm.rsa_key n e

  -- `COSEVerifier_OpenSSL::verify`: the content, if t_cose finds the signature good.
  unfoldable pub cose_verify : JsonWebKeyRsaPublic → Bytes → Result (Option Bytes)
  unfolding rsa_public_key
  cose_verify pubk buf = do key ← rsa_public_key pubk; ok (uvm.sign1_verify key buf)

  unfoldable pub verify_signature : JsonWebKeyRsaPublic → Bytes → Result Bytes
  unfolding cose_verify
  verify_signature pubkey uvm_endorsements_raw = do
    content ← cose_verify pubkey uvm_endorsements_raw
    elim content [
      | none ↦ err (runtime_error "Signature verification failed")
      | some payload ↦ ok payload
    ]

  unfoldable pub cert_der_to_pem : Bytes → Result Bytes
  cert_der_to_pem der = do x509 ← crypto.read_der der; ok (crypto.pem x509)

  unfoldable pub chain_to_pem : List Bytes → Result Bytes
  unfolding cert_der_to_pem
  chain_to_pem [] = ok []
  chain_to_pem (c ∷ cs) = do pem ← cert_der_to_pem c; rest ← chain_to_pem cs; ok (pem ++ rest)

  unfoldable pub parse_document : Bytes → Result DidDocument
  unfolding read_document
  parse_document text =
      rethrow "{}" (json.parse text >>= (λ j. read_document json uvm.at_key uvm.get_array j))

  unfoldable pub choose_key : Bytes → List VerificationMethod → Result JsonWebKeyRsaPublic
  unfolding find_key
  choose_key did [] = err (logic_error "Could not find verification method for DID document: {}")
  choose_key did (vm ∷ vms) = elim (find_key did (vm ∷ vms)) [
    | none ↦ err (logic_error "Could not find matching public key for DID {} in {}")
    | some pubk ↦ ok pubk
  ]

  unfoldable pub parse_payload : Bytes → Result UvmEndorsementsPayload
  unfolding string_at
  parse_payload raw = do
    j ← json.parse raw
    svn ← string_at json uvm.at_key uvm.get_array j (codes "x-ms-sevsnpvm-guestsvn")
    measurement ←
        string_at json uvm.at_key uvm.get_array j (codes "x-ms-sevsnpvm-launchmeasurement")
    ok (record { sevsnpvm_guest_svn = svn; sevsnpvm_launch_measurement = measurement })

  unfoldable pub verify_uvm_endorsements : Bytes → Bytes → Result UvmEndorsements
  verify_uvm_endorsements uvm_endorsements_raw uvm_measurement = do
    phdr ← decode_protected_header qcbor uvm_endorsements_raw
    check (not (bytes_eq phdr.content_type (codes "application/json")))
        "Unexpected payload content type {}, expected {}"
    check (not (is_rsa_alg phdr.alg)) "Signature algorithm {} is not expected RSA"
    pem_chain ← chain_to_pem phdr.x5_chain
    did_document_str ← uvm.resolve pem_chain phdr.iss
    did_document ← parse_document did_document_str
    pubk ← choose_key phdr.iss did_document.verification_method
    raw_payload ← verify_signature pubk uvm_endorsements_raw
    payload ← parse_payload raw_payload
    check (not (bytes_eq payload.sevsnpvm_launch_measurement (to_hex uvm_measurement)))
        "Launch measurement in UVM endorsements payload {} is not equal to UVM attestation measurement {}"
    let end : UvmEndorsements = record {
      did = phdr.iss;
      feed = phdr.feed;
      svn = payload.sevsnpvm_guest_svn;
    } in
        check (not (matches_uvm_roots_of_trust end))
          "UVM endorsements did {}, feed {}, svn {} do not match any of the known UVM roots of trust"
        >> ok end
