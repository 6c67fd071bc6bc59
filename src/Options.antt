-- ===== src/Options.antt =====
-- include/ravl/options.h and include/ravl/crypto_options.h.
use ravl.Prelude.{ℕ, Bool, true, false, Option, none, Bytes}

-- `time_t` is a number of seconds that the library only hands on.
pub record CertificateValidationOptions : Type 0 where
  pub ignore_time : Bool
  pub verification_time : Option ℕ

pub record Options : Type 0 where
  pub verbosity : ℕ
  pub certificate_verification : CertificateValidationOptions
  pub fresh_endorsements : Bool
  pub fresh_root_ca_certificate : Bool
  pub root_ca_certificate : Option Bytes
  pub check_root_certificate_manufacturer_key : Bool
  pub sgx_endorsement_cache_url_template : Option Bytes
  pub sev_snp_endorsement_cache_url_template : Option Bytes
  pub http_timeout : ℕ
  pub http_max_attempts : ℕ
  pub historical : Bool
  pub partial : Bool

-- The member initialisers.
abbrev pub default_validation : CertificateValidationOptions
default_validation = record { ignore_time = false; verification_time = none }

abbrev pub default_options : Options
default_options = record {
  verbosity = 0;
  certificate_verification = default_validation;
  fresh_endorsements = false;
  fresh_root_ca_certificate = false;
  root_ca_certificate = none;
  check_root_certificate_manufacturer_key = true;
  sgx_endorsement_cache_url_template = none;
  sev_snp_endorsement_cache_url_template = none;
  http_timeout = 90;
  http_max_attempts = 5;
  historical = false;
  partial = false;
}
