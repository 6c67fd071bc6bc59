-- ===== src/Attestation.antt =====
-- `attestation_json`, `parse` and the functions around them of src/attestation.cpp.
pub mod RoundTrip
use ravl.Prelude.{
  ℕ, Bool, true, false, not, List, [], ◌∷◌, ◌++◌, Option, none, some, Bytes, codes, bytes_eq,
  if◌then◌else◌,
}
use ravl.Result.{Result, ok, err, undefined, out_of_range, rethrow, ◌>>=◌}

pub data Source : Type 0 where
  sgx sev_snp open_enclave aci unknown : Source

-- Only `aci::Attestation` has `uvm_endorsements`.
pub record Attestation : Type 0 where
  pub source : Source
  pub evidence : Bytes
  pub endorsements : Bytes
  pub uvm_endorsements : Option Bytes

-- The JSON library, with documents to write; `at` throws for a missing key, and `get_string` if the
-- value is no string.
pub record Documents : Type 1 where
  pub Json : Type 0
  pub at : Json → Bytes → Result Json
  pub contains : Json → Bytes → Bool
  pub get_string : Json → Result Bytes
  pub get_bytes : Json → Result Bytes
  pub of_string : Bytes → Json
  pub of_bytes : Bytes → Json
  pub object : List (Bytes × Json) → Json
  pub parse : Bytes → Result Json
  pub dump : Json → Bytes
  pub from_cbor : Bytes → Result Json
  pub to_cbor : Json → Bytes

-- NLOHMANN_JSON_SERIALIZE_ENUM: what is not in the table is the table's first entry, both ways.
abbrev pub source_name : Source → Bytes
source_name Source.sgx = codes "sgx"
source_name Source.sev_snp = codes "sevsnp"
source_name Source.open_enclave = codes "openenclave"
source_name Source.aci = codes "aci"
source_name Source.unknown = codes "sgx"

abbrev pub find_source : Bytes → Source
find_source name =
    if bytes_eq name (codes "sevsnp")
    then Source.sev_snp
    else if bytes_eq name (codes "openenclave")
    then Source.open_enclave
    else if bytes_eq name (codes "aci")
    then Source.aci
    else Source.sgx

-- `get<Source>()`: a value that is not a string equals no entry either.
abbrev pub source_of : (json : Documents) → json.Json → Source
source_of json v = elim (json.get_string v) [
  | ok name ↦ find_source name
  | err e ↦ Source.sgx
  | undefined ↦ Source.sgx
]

abbrev pub is_empty : Bytes → Bool
is_empty [] = true
is_empty (b ∷ bs) = false

-- The classes' constructors; `find_source` gives no `unknown`.
abbrev pub make_attestation : Source → Bytes → Bytes → Bytes → Attestation
make_attestation Source.aci evidence endorsements uvm_endorsements = record {
  source = Source.aci;
  evidence = evidence;
  endorsements = endorsements;
  uvm_endorsements = some uvm_endorsements;
}
make_attestation source evidence endorsements uvm_endorsements = record {
  source = source;
  evidence = evidence;
  endorsements = endorsements;
  uvm_endorsements = none;
}

-- OpenSSL's conversions to and from base 64.
module _ (json : Documents) (to_base64 : Bytes → Bytes) (from_base64 : Bytes → Result Bytes) where
  abbrev pub write_bytes : Bool → Bytes → json.Json
  write_bytes base64 bytes =
      if base64 then json.of_string (to_base64 bytes) else json.of_bytes bytes

  abbrev pub endorsements_member : Bool → Bytes → List (Bytes × json.Json)
  endorsements_member base64 bytes =
      if is_empty bytes then [] else (codes "endorsements", write_bytes base64 bytes) ∷ []

  unfoldable pub attestation_json : Attestation → Bool → json.Json
  attestation_json a base64 = json.object (
      (codes "source", json.of_string (source_name a.source))
      ∷ (codes "evidence", write_bytes base64 a.evidence)
      ∷ endorsements_member base64 a.endorsements)

  -- The member as bytes.
  unfoldable pub read_member : json.Json → Bytes → Bool → Result Bytes
  read_member j key base64 = do
    v ← json.at j key
    if base64 then (json.get_string v >>= (λ s. from_base64 s)) else json.get_bytes v

  unfoldable pub read_optional : json.Json → Bytes → Bool → Result Bytes
  unfolding read_member
  read_optional j key base64 = if json.contains j key then read_member j key base64 else ok []

  unfoldable pub read_attestation : json.Json → Bool → Result Attestation
  unfolding read_member read_optional
  read_attestation j base64 = do
    source ← json.at j (codes "source")
    evidence ← read_member j (codes "evidence") base64
    endorsements ← read_optional j (codes "endorsements") base64
    uvm_endorsements ← read_optional j (codes "uvm_endorsements") base64
    ok (make_attestation (source_of json source) evidence endorsements uvm_endorsements)

  unfoldable pub parse : json.Json → Bool → Result Attestation
  unfolding read_attestation
  parse j base64 = rethrow "attestation parsing failed: {}" (read_attestation j base64)

  -- `Attestation::operator std::string`
  unfoldable pub to_text : Attestation → Bytes
  unfolding attestation_json
  to_text a = json.dump (attestation_json a true)

  unfoldable pub parse_attestation : Bytes → Result Attestation
  unfolding parse
  parse_attestation text = do j ← json.parse text; parse j true

  unfoldable pub cbor : Attestation → Bytes
  unfolding attestation_json
  cbor a = json.to_cbor (attestation_json a false)

  unfoldable pub parse_attestation_cbor : Bytes → Result Attestation
  unfolding parse
  parse_attestation_cbor bytes = do j ← json.from_cbor bytes; parse j false
