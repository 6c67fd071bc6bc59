-- ===== src/Capi.antt =====
-- The C interface, src/capi.cpp and include/ravl/capi.h.
pub mod Accepted
use ravl.Prelude.{ℕ, Bool, not, [], Option, none, some, Bytes, ◌==◌}
use ravl.Result.{Exception, Result, ok, err, undefined, ◌>>=◌}
use ravl.Exec.{Exec}
use ravl.Options.{CertificateValidationOptions, Options, default_options}
use ravl.Http.Message.{HttpResponses}
use ravl.Crypto.{OpenSsl}
use ravl.Json.{JsonLibrary}
use ravl.Attestation.{Source, Attestation, Documents, parse_attestation, parse_attestation_cbor}
use ravl.Sgx.Verify.{Evidence}
use ravl.Sgx
use ravl.Snp
use ravl.Aci
use ravl.OpenEnclave
use ravl.OpenEnclave.Verify.{OeClaims, new_attestation}
use ravl.Aci.Cose.{Qcbor, value_or}
use ravl.Aci.Endorsements.{UvmLibrary}

-- An `int` is a flag; a pointer is none or what it points at.
pub record RavlOptions : Type 0 where
  pub verbosity : ℕ
  pub ignore_time : ℕ
  pub verification_time : Option ℕ
  pub fresh_endorsements : ℕ
  pub fresh_root_ca_certificate : ℕ
  pub root_ca_certificate : Option Bytes
  pub check_root_certificate_manufacturer_key : ℕ
  pub sgx_endorsement_cache_url_template : Option Bytes
  pub sev_snp_endorsement_cache_url_template : Option Bytes
  pub http_timeout : ℕ
  pub http_max_attempts : ℕ
  pub historical : ℕ

abbrev pub to_bool : ℕ → Bool
to_bool flag = not (flag == 0)

-- `verbosity` is not handed on, and `partial` keeps its default.
unfoldable pub cpp_options : Option RavlOptions → Options
cpp_options none = default_options
cpp_options (some options) = record default_options {
  certificate_verification = record {
    ignore_time = to_bool options.ignore_time;
    verification_time = options.verification_time;
  };
  fresh_endorsements = to_bool options.fresh_endorsements;
  fresh_root_ca_certificate = to_bool options.fresh_root_ca_certificate;
  root_ca_certificate = options.root_ca_certificate;
  check_root_certificate_manufacturer_key = to_bool options.check_root_certificate_manufacturer_key;
  sgx_endorsement_cache_url_template = options.sgx_endorsement_cache_url_template;
  sev_snp_endorsement_cache_url_template = options.sev_snp_endorsement_cache_url_template;
  http_timeout = options.http_timeout;
  http_max_attempts = options.http_max_attempts;
  historical = to_bool options.historical;
}

pub data Status : Type 0 where
  ravl_ok ravl_error : Status

-- The two globals; the pointer is null, or points at the string.
pub record LastException : Type 0 where
  pub message_string : Bytes
  pub message : Option Bytes

-- The claims of the classes; those of ACI attestations are of the SEV/SNP class.
pub data AnyClaims : Type 0 where
  sgx_claims : Sgx.Claims.Claims → AnyClaims
  snp_claims : Snp.Claims.Claims → AnyClaims
  oe_claims : OeClaims → AnyClaims

abbrev pub evidence_of : Attestation → Evidence
evidence_of a = record { evidence = a.evidence; endorsements = a.endorsements }

module _ (crypto : OpenSsl) (take_pem : Bytes → Result (Bytes × Bytes)) (json : JsonLibrary)
    (parse_time_point : Bytes → Result ℕ) (qcbor : Qcbor) (uvm : UvmLibrary crypto json) where
  abbrev pub verify_class : Source → Attestation → Options → Option HttpResponses → Result AnyClaims
  verify_class Source.sgx a options responses =
      Sgx.Verify.verify crypto take_pem json parse_time_point (evidence_of a) options responses
      >>= (λ c. ok (sgx_claims c))
  verify_class Source.sev_snp a options responses =
      Snp.Verify.verify crypto (evidence_of a) options responses >>= (λ c. ok (snp_claims c))
  verify_class Source.open_enclave a options responses =
      (OpenEnclave.Verify.verify crypto take_pem json parse_time_point options responses
        (new_attestation (evidence_of a))).0
      >>= (λ c. ok (oe_claims c))
  verify_class Source.aci a options responses =
      Aci.Verify.verify qcbor crypto json uvm
        (record { base = evidence_of a; uvm_endorsements = value_or [] a.uvm_endorsements }) options
        responses
      >>= (λ c. ok (snp_claims c))
  verify_class Source.unknown a options responses = undefined

  -- `att->verify(…)`, which is virtual; no class has an unknown source.
  unfoldable pub verify_attestation :
      Attestation → Options → Option HttpResponses → Result AnyClaims
  verify_attestation a options responses = verify_class a.source a options responses

  -- `what` is the text of an exception, or of the handler for those that are none.
  module _ (what : Exception → Bytes) where
    abbrev pub report : Result AnyClaims → Exec LastException Status
    report (ok claims) s = (ok Status.ravl_ok, record { message_string = []; message = none })
    report (err e) s =
        (ok Status.ravl_error, record { message_string = what e; message = some (what e) })
    report undefined s = (undefined, s)

    module _ (documents : Documents) (to_base64 : Bytes → Bytes)
        (from_base64 : Bytes → Result Bytes) where
      unfoldable pub verify_attestation_json :
          Bytes → Option RavlOptions → Exec LastException Status
      verify_attestation_json bytes options = report (do
        att ← parse_attestation documents to_base64 from_base64 bytes
        verify_attestation att (cpp_options options) none)

      unfoldable pub verify_attestation_cbor :
          Bytes → Option RavlOptions → Exec LastException Status
      verify_attestation_cbor bytes options = report (do
        att ← parse_attestation_cbor documents to_base64 from_base64 bytes
        verify_attestation att (cpp_options options) none)
