-- ===== src/Capi/Accepted.antt =====
-- What the C interface accepts.
use ravl.Prelude.{
  ℕ, String, ◌≡◌, refl, ap, arith, Bool, false, not, ◌&&◌, Option, none, some, [], Bytes,
}
use ravl.Result.{Exception, Result, ok, err, undefined, throw_if, bind_returned, ◌>>=◌}
use ravl.Options.{Options}
use ravl.Crypto.{OpenSsl}
use ravl.Json.{JsonLibrary}
use ravl.Attestation.{Source, Attestation, Documents, parse_attestation}
use ravl.Sgx.Consume.{is_empty}
use ravl.Sgx.Verify.{Evidence}
use ravl.Sgx
use ravl.Snp
use ravl.Aci
use ravl.OpenEnclave
use ravl.OpenEnclave.Verify.{new_attestation, ensure_extracted}
use ravl.Aci.Verify.Sound.{verify-IsRooted}
use ravl.Aci.Cose.{Qcbor, value_or}
use ravl.Aci.Endorsements.{UvmLibrary}
use ravl.Capi.{
  RavlOptions, cpp_options, Status, LastException, AnyClaims, evidence_of, verify_class,
  verify_attestation, report, verify_attestation_json,
}

has_endorsements :
    (empty : Bool) (message : String) {u : Unit {0}}
    → throw_if (empty && not false) message ≡ ok u
    → empty ≡ false
has_endorsements empty message h = ground (arith, h)

never_partial : (options : Option RavlOptions) → (cpp_options options).partial ≡ false
unfolding cpp_options
never_partial none = refl
never_partial (some options) = refl

module _ (crypto : OpenSsl) (take_pem : Bytes → Result (Bytes × Bytes)) (json : JsonLibrary)
    (parse_time_point : Bytes → Result ℕ) (qcbor : Qcbor) (uvm : UvmLibrary crypto json) where
  sgx_endorsed :
      (att : Evidence) (options : Options) {c : Sgx.Claims.Claims}
      → options.partial ≡ false
      → Sgx.Verify.verify crypto take_pem json parse_time_point att options none ≡ ok c
      → is_empty att.endorsements ≡ false
  unfolding Sgx.Verify.verify Sgx.Verify.verify_full
  sgx_endorsed att options full h =
      let (_, _, f) =
        bind_returned (throw_if (is_empty att.endorsements && not false) "missing endorsements") _
          (rw full at h) in
      has_endorsements (is_empty att.endorsements) _ f

  snp_endorsed :
      (att : Evidence) (options : Options) {c : Snp.Claims.Claims}
      → Snp.Verify.verify crypto att options none ≡ ok c
      → is_empty att.endorsements ≡ false
  unfolding Snp.Verify.verify
  snp_endorsed att options h =
      let (_, _, f) =
        bind_returned (throw_if (is_empty att.endorsements && not false) "missing endorsements") _
          h in
      has_endorsements (is_empty att.endorsements) _ f

  oe_endorsed :
      (att : Evidence) (options : Options) {c : OpenEnclave.Verify.OeClaims}
      → (OpenEnclave.Verify.verify crypto take_pem json parse_time_point options none
          (new_attestation att)).0
        ≡ ok c
      → is_empty att.endorsements ≡ false
  unfolding OpenEnclave.Verify.verify ensure_extracted
  oe_endorsed att options h = ground (arith, h)

  class_endorsed :
      (source : Source) (a : Attestation) (options : Options) {c : AnyClaims}
      → options.partial ≡ false
      → verify_class crypto take_pem json parse_time_point qcbor uvm source a options none ≡ ok c
      → is_empty a.endorsements ≡ false
  class_endorsed Source.sgx a options full h =
      let (_, _, f) =
        bind_returned
          (Sgx.Verify.verify crypto take_pem json parse_time_point (evidence_of a) options none) _
          h in
      sgx_endorsed (evidence_of a) options full f
  class_endorsed Source.sev_snp a options full h =
      let (_, _, f) = bind_returned (Snp.Verify.verify crypto (evidence_of a) options none) _ h in
      snp_endorsed (evidence_of a) options f
  class_endorsed Source.open_enclave a options full h =
      let (_, _, f) =
        bind_returned
          (OpenEnclave.Verify.verify crypto take_pem json parse_time_point options none
            (new_attestation (evidence_of a))).0
          _ h in
      oe_endorsed (evidence_of a) options f
  class_endorsed Source.aci a options full h =
      let att : Aci.Verify.AciAttestation = record {
        base = evidence_of a;
        uvm_endorsements = value_or [] a.uvm_endorsements;
      } in
      let (claims, _, f) =
        bind_returned (Aci.Verify.verify qcbor crypto json uvm att options none) _ h in
      snp_endorsed (evidence_of a) options
        (verify-IsRooted qcbor crypto json uvm att options none claims f).0
  class_endorsed Source.unknown a options full h = absurd cc

  module _ (what : Exception → Bytes) where
    -- An attestation that was read, that has endorsements, and whose class accepts it.
    pub record IsSelfContained (parsed : Result Attestation) (options : Option RavlOptions)
        : Type 0 where
      pub att : Attestation
      pub claims : AnyClaims
      pub read : parsed ≡ ok att
      pub accepted :
          verify_attestation crypto take_pem json parse_time_point qcbor uvm att
            (cpp_options options)
            none
          ≡ ok claims
      pub endorsed : is_empty att.endorsements ≡ false

    reported :
        (r : Result AnyClaims) (s : LastException)
        → (report crypto take_pem json parse_time_point qcbor uvm what r s).0 ≡ ok Status.ravl_ok
        → (c : AnyClaims) × (r ≡ ok c)
          × ((report crypto take_pem json parse_time_point qcbor uvm what r s).1.message ≡ none)
    reported (ok c) s h = (c, refl, refl)
    reported (err e) s h = absurd cc
    reported undefined s h = absurd cc

    contained :
        (parsed : Result Attestation) (options : Option RavlOptions) (c : AnyClaims)
        → (parsed >>= (λ att.
            verify_attestation crypto take_pem json parse_time_point qcbor uvm att
              (cpp_options options)
              none))
          ≡ ok c
        → IsSelfContained parsed options
    unfolding verify_attestation
    contained parsed options c h =
        let (att, f, read) = bind_returned parsed _ h in
        record {
          att = att;
          claims = c;
          read = read;
          accepted = f;
          endorsed = class_endorsed att.source att (cpp_options options) (never_partial options) f;
        }

    module _ (documents : Documents) (to_base64 : Bytes → Bytes)
        (from_base64 : Bytes → Result Bytes) where
      -- An attestation in JSON for which the C interface returns RAVL_OK, with any options of it:
      -- it is read, it has endorsements of its own (none are ever fetched, and the verification is
      -- never a partial one), its class accepts it without responses, and the message of the last
      -- exception is reset.
      pub verify_attestation_json-IsSelfContained :
          (bytes : Bytes) (options : Option RavlOptions) (s s' : LastException)
          → verify_attestation_json crypto take_pem json parse_time_point qcbor uvm what documents
              to_base64 from_base64 bytes options s
            ≡ (ok Status.ravl_ok, s')
          → IsSelfContained (parse_attestation documents to_base64 from_base64 bytes) options
            × (s'.message ≡ none)
      unfolding verify_attestation_json
      verify_attestation_json-IsSelfContained bytes options s s' h =
          let (c, e, reset) = reported _ s (ap (λ r. r.0) h) in
          (
            contained (parse_attestation documents to_base64 from_base64 bytes) options c e,
            rw (ap (λ r. r.1) h) at reset,
          )
