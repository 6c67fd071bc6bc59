-- ===== src/OpenEnclave/Verify.antt =====
-- `prepare_endorsements` and `verify` of include/ravl/oe_impl.h, without Open Enclave's verifier.
pub mod Sound
pub mod Unbound
use ravl.Prelude.{ℕ, Bool, true, false, List, [], ◌∷◌, Option, none, some, Bytes, if◌then◌else◌}
use ravl.Result.{Result, ok, throw_if, deref}
use ravl.Exec.{Exec, pure, lift, gets, modify, ◌>>=◌, ◌>>◌}
use ravl.Options.{Options}
use ravl.Http.Message.{Headers, HttpRequests, HttpResponses}
use ravl.Crypto.{OpenSsl}
use ravl.Json.{JsonLibrary}
use ravl.Sgx.Consume.{is_empty}
use ravl.Sgx.Verify.{Evidence}
use ravl.Sgx.Verify
use ravl.Sgx.Claims.{Claims}
use ravl.OpenEnclave.Extract.{extract_sgx_attestation}
use ravl.OpenEnclave.CustomClaims.{extract_custom_claims}

-- `oe::Attestation`, with the members that its methods may set although they are const.
pub record OeAttestation : Type 0 where
  pub base : Evidence
  pub sgx_attestation : Option Evidence
  pub custom_claims : Bytes

abbrev pub new_attestation : Evidence → OeAttestation
new_attestation a = record { base = a; sgx_attestation = none; custom_claims = [] }

-- `oe::Claims`
pub record OeClaims : Type 0 where
  pub sgx_claims : Claims
  pub custom_claims : Headers

-- `auto [sgx_att, cc] = extract_sgx_attestation(*this);` and the two assignments.
unfoldable pub extract : OeAttestation → Result (Unit {0}) × OeAttestation
extract a = elim (extract_sgx_attestation a.base) [
  | ok (sgx, cc) ↦ (ok tt, record a { sgx_attestation = some sgx; custom_claims = cc })
  | Result.err e ↦ (Result.err e, a)
  | Result.undefined ↦ (Result.undefined, a)
]

module _ (crypto : OpenSsl) (take_pem : Bytes → Result (Bytes × Bytes)) where
  unfoldable pub prepare_endorsements :
      (Bytes → List Bytes → Result Bytes) → Options → Exec OeAttestation (Option HttpRequests)
  prepare_endorsements vformat options = do
    extract
    sgx ← gets (λ a. a.sgx_attestation)
    att ← lift (deref sgx)
    lift (Verify.prepare_endorsements crypto take_pem vformat att options)

  module _ (json : JsonLibrary) (parse_time_point : Bytes → Result ℕ) where
    -- The attestation is extracted if `prepare_endorsements` has not done it.
    unfoldable pub ensure_extracted : Exec OeAttestation (Unit {0})
    ensure_extracted a = elim a.sgx_attestation [
      | some sgx ↦ (ok tt, a)
      | none ↦ (lift (throw_if (is_empty a.base.endorsements) "no endorsements") >> extract) a
    ]

    unfoldable pub verify : Options → Option HttpResponses → Exec OeAttestation OeClaims
    verify options responses = do
      ensure_extracted
      sgx ← gets (λ a. a.sgx_attestation)
      att ← lift (deref sgx)
      claims ← lift (Verify.verify crypto take_pem json parse_time_point att options responses)
      cc ← gets (λ a. a.custom_claims)
      custom_claims ← lift (extract_custom_claims cc [])
      pure (record { sgx_claims = claims; custom_claims = custom_claims })
