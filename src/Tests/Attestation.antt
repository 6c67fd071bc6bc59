-- ===== src/Tests/Attestation.antt =====
-- Attestations through JSON at a concrete input.
use ravl.Prelude.{
  arith, ◌≡◌, refl, Bool, true, false, List, [], ◌∷◌, none, some, Option, Bytes, codes, bytes_eq,
  if◌then◌else◌,
}
use ravl.Result.{Result, ok, err, out_of_range, runtime_error}
use ravl.Attestation.{Source, Attestation, Documents, attestation_json, make_attestation, parse}
use ravl.Attestation.RoundTrip.{member, found, IsFaithful, parse-attestation_json}

mutual
  data Document : Type 0 where
    text : Bytes → Document
    raw : Bytes → Document
    object : Members → Document

  data Members : Type 0 where
    no_members : Members
    with_member : Bytes → Document → Members → Members

abbrev to_members : List (Bytes × Document) → Members
to_members [] = no_members
to_members ((k, v) ∷ ms) = with_member k v (to_members ms)

abbrev lookup : Members → Bytes → Option Document
lookup no_members key = none
lookup (with_member k v ms) key = if bytes_eq k key then some v else lookup ms key

abbrev at_key : Document → Bytes → Option Document
at_key (object ms) key = lookup ms key
at_key (text s) key = none
at_key (raw b) key = none

abbrev as_text : Document → Result Bytes
as_text (text s) = ok s
as_text (raw b) = err (runtime_error "not a string")
as_text (object ms) = err (runtime_error "not a string")

abbrev as_raw : Document → Result Bytes
as_raw (raw b) = ok b
as_raw (text s) = err (runtime_error "not an array")
as_raw (object ms) = err (runtime_error "not an array")

abbrev in_base64 : Document
in_base64 =
    object (
      to_members
        ((codes "source", text (codes "sgx")) ∷ (codes "evidence", text (1 ∷ 2 ∷ [])) ∷ []))

abbrev plain : Document
plain =
    object (
      to_members ((codes "source", text (codes "sgx")) ∷ (codes "evidence", raw (1 ∷ 2 ∷ [])) ∷ []))

-- The texts are those of one attestation.
abbrev documents : Documents
documents = record {
  Json = Document;
  at = λ j key. elim (at_key j key) [ none ↦ err out_of_range | some v ↦ ok v ];
  contains = λ j key. found (at_key j key);
  get_string = as_text;
  get_bytes = as_raw;
  of_string = text;
  of_bytes = raw;
  object = λ ms. object (to_members ms);
  parse = λ s. ok in_base64;
  dump = λ j. [];
  from_cbor = λ b. ok plain;
  to_cbor = λ j. [];
}

lookup-to_members :
    (ms : List (Bytes × Document)) (key : Bytes) → lookup (to_members ms) key ≡ member ms key
lookup-to_members [] key = refl
lookup-to_members ((k, v) ∷ ms) key = rw (lookup-to_members ms key)

documents-IsFaithful : IsFaithful documents
documents-IsFaithful = record {
  at_object = λ ms key v h. ground (arith, lookup-to_members ms key, h);
  contains_object = λ ms key. ground (arith, lookup-to_members ms key);
  string_back = λ s. refl;
  bytes_back = λ b. refl;
}

abbrev same_bytes : Bytes → Bytes
same_bytes b = b

abbrev from_text : Bytes → Result Bytes
from_text s = ok s

abbrev is_sgx : Source → Bool
is_sgx Source.sgx = true
is_sgx _ = false

abbrev aci_attestation : Attestation
aci_attestation = record {
  source = Source.aci;
  evidence = 1 ∷ 2 ∷ [];
  endorsements = 3 ∷ [];
  uvm_endorsements = some (4 ∷ []);
}

parse-attestation_json_example :
    parse documents same_bytes from_text
      (attestation_json documents same_bytes from_text aci_attestation true)
      true
    ≡ ok (make_attestation Source.aci (1 ∷ 2 ∷ []) (3 ∷ []) [])
parse-attestation_json_example =
    parse-attestation_json documents same_bytes from_text documents-IsFaithful (λ b. refl)
      aci_attestation true (cc)
