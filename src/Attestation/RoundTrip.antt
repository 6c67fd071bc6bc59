-- ===== src/Attestation/RoundTrip.antt =====
-- Attestations through JSON and CBOR.
use ravl.Prelude.{
  ◌≡◌, ◌≢◌, refl, Bool, true, false, List, [], ◌∷◌, Option, none, some, Bytes, codes, bytes_eq,
  arith, if◌then◌else◌,
}
use ravl.Result.{Result, ok}
use ravl.Attestation.{
  Source, Attestation, Documents, source_name, find_source, make_attestation, write_bytes,
  endorsements_member, attestation_json, read_member, read_optional, read_attestation, parse,
  to_text, parse_attestation, cbor, parse_attestation_cbor,
}

abbrev pub member : {J : Type 0} → List (Bytes × J) → Bytes → Option J
member [] key = none
member ((k, v) ∷ ms) key = if bytes_eq k key then some v else member ms key

abbrev pub found : {J : Type 0} → Option J → Bool
found none = false
found (some v) = true

-- What the library documents: an object has the members it is made of, and values are read back.
pub record IsFaithful (json : Documents) : Type 0 where
  pub at_object :
      (ms : List (Bytes × json.Json)) (key : Bytes) (v : json.Json)
      → member ms key ≡ some v
      → json.at (json.object ms) key ≡ ok v
  pub contains_object :
      (ms : List (Bytes × json.Json)) (key : Bytes)
      → json.contains (json.object ms) key ≡ found (member ms key)
  pub string_back : (s : Bytes) → json.get_string (json.of_string s) ≡ ok s
  pub bytes_back : (b : Bytes) → json.get_bytes (json.of_bytes b) ≡ ok b

-- Attestations of the first three classes.
abbrev pub without_uvm : Source → Bytes → Bytes → Attestation
without_uvm source evidence endorsements = record {
  source = source;
  evidence = evidence;
  endorsements = endorsements;
  uvm_endorsements = none;
}

make_without_uvm :
    (source : Source) (evidence endorsements : Bytes)
    → source ≢ Source.aci
    → make_attestation source evidence endorsements [] ≡ without_uvm source evidence endorsements
make_without_uvm Source.sgx evidence endorsements h = refl
make_without_uvm Source.sev_snp evidence endorsements h = refl
make_without_uvm Source.open_enclave evidence endorsements h = refl
make_without_uvm Source.aci evidence endorsements h = absurd (h refl)
make_without_uvm Source.unknown evidence endorsements h = refl

module _ (json : Documents) (to_base64 : Bytes → Bytes) (from_base64 : Bytes → Result Bytes)
    (faithful : IsFaithful json)
    (base64_back : (b : Bytes) → from_base64 (to_base64 b) ≡ ok b) where
  read_member_lem :
      (ms : List (Bytes × json.Json)) (key b : Bytes) (base64 : Bool)
      → member ms key ≡ some (write_bytes json to_base64 from_base64 base64 b)
      → read_member json to_base64 from_base64 (json.object ms) key base64 ≡ ok b
  unfolding read_member
  read_member_lem ms key b true h = ground (
    arith,
    faithful.at_object ms key (json.of_string (to_base64 b)) h,
    faithful.string_back (to_base64 b),
    base64_back b,
  )
  read_member_lem ms key b false h =
      ground (arith, faithful.at_object ms key (json.of_bytes b) h, faithful.bytes_back b)

  -- The members of the object that an attestation is written as.
  abbrev members : Bytes → Bytes → Bytes → Bool → List (Bytes × json.Json)
  members name evidence endorsements base64 =
      (codes "source", json.of_string name)
      ∷ (codes "evidence", write_bytes json to_base64 from_base64 base64 evidence)
      ∷ endorsements_member json to_base64 from_base64 base64 endorsements

  read_members_lem :
      (name evidence endorsements : Bytes) (base64 : Bool)
      → read_attestation json to_base64 from_base64
          (json.object (members name evidence endorsements base64))
          base64
        ≡ ok (make_attestation (find_source name) evidence endorsements [])
  unfolding read_attestation read_optional
  read_members_lem name evidence [] base64 =
      let ms = members name evidence [] base64 in
      ground (
        arith,
        faithful.at_object ms (codes "source") (json.of_string name) refl,
        faithful.string_back name,
        read_member_lem ms (codes "evidence") evidence base64 refl,
        faithful.contains_object ms (codes "endorsements"),
        faithful.contains_object ms (codes "uvm_endorsements"),
      )
  read_members_lem name evidence (b ∷ bs) base64 =
      let ms = members name evidence (b ∷ bs) base64 in
      ground (
        arith,
        faithful.at_object ms (codes "source") (json.of_string name) refl,
        faithful.string_back name,
        read_member_lem ms (codes "evidence") evidence base64 refl,
        read_member_lem ms (codes "endorsements") (b ∷ bs) base64 refl,
        faithful.contains_object ms (codes "endorsements"),
        faithful.contains_object ms (codes "uvm_endorsements"),
      )

  find_source-source_name : (s : Source) → s ≢ Source.unknown → find_source (source_name s) ≡ s
  find_source-source_name Source.sgx h = refl
  find_source-source_name Source.sev_snp h = refl
  find_source-source_name Source.open_enclave h = refl
  find_source-source_name Source.aci h = refl
  find_source-source_name Source.unknown h = absurd (h refl)

  -- An attestation of a known source is read back from the document that is written for it, in base
  -- 64 or not, with its source, evidence and endorsements; one of ACI comes back with empty UVM
  -- endorsements, whatever it had, since they are not written.
  pub parse-attestation_json :
      (a : Attestation) (base64 : Bool)
      → a.source ≢ Source.unknown
      → parse json to_base64 from_base64
          (attestation_json json to_base64 from_base64 a base64)
          base64
        ≡ ok (make_attestation a.source a.evidence a.endorsements [])
  unfolding parse attestation_json
  parse-attestation_json a base64 known = ground (
    arith,
    read_members_lem (source_name a.source) a.evidence a.endorsements base64,
    find_source-source_name a.source known,
  )

  -- An attestation of one of the three other classes is read back from its text, if the JSON library
  -- reads back the document that it prints, and from CBOR likewise.
  parse_attestation-to_text :
      (source : Source) (evidence endorsements : Bytes) (j k : json.Json)
      → source ≢ Source.unknown
      → source ≢ Source.aci
      → j
        ≡ attestation_json json to_base64 from_base64
            (without_uvm source evidence endorsements)
            true
      → k
        ≡ attestation_json json to_base64 from_base64
            (without_uvm source evidence endorsements)
            false
      → json.parse (json.dump j) ≡ ok j
      → json.from_cbor (json.to_cbor k) ≡ ok k
      → (parse_attestation json to_base64 from_base64
            (to_text json to_base64 from_base64 (without_uvm source evidence endorsements))
          ≡ ok (without_uvm source evidence endorsements))
        × (parse_attestation_cbor json to_base64 from_base64
              (cbor json to_base64 from_base64 (without_uvm source evidence endorsements))
            ≡ ok (without_uvm source evidence endorsements))
  unfolding parse_attestation parse_attestation_cbor to_text cbor
  parse_attestation-to_text source evidence endorsements j k known not_aci is_j is_k dumped
        encoded =
      let a = without_uvm source evidence endorsements in
      let same = make_without_uvm source evidence endorsements not_aci in
      (
        ground (arith, rw is_j at dumped, parse-attestation_json a true known, same),
        ground (arith, rw is_k at encoded, parse-attestation_json a false known, same),
      )
