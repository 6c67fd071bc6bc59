-- ===== src/Sgx/Verify/Root.antt =====
-- The root certificate of the options has no part in the verification.
use ravl.Prelude.{ℕ, ◌≡◌, refl, Option, Bytes}
use ravl.Result.{Result}
use ravl.Options.{Options}
use ravl.Http.Message.{HttpResponses}
use ravl.Crypto.{OpenSsl}
use ravl.Json.{JsonLibrary}
use ravl.Sgx.Tcb.{verify_tcb}
use ravl.Sgx.Identity.{verify_qe_id}
use ravl.Sgx.Verify.{
  Evidence, check_pck, certified, partial_verify, find_collateral, check_collateral, verify_full,
  verify,
}

module _ (crypto : OpenSsl) (take_pem : Bytes → Result (Bytes × Bytes)) (json : JsonLibrary)
    (parse_time_point : Bytes → Result ℕ) where
  -- With and without a root certificate in the options, `verify` gives the same, as long as the same
  -- collateral is found in the endorsements and the responses: the certificate that a user gives to be
  -- trusted has no other part in the verification.
  pub verify_ignores_root :
      (att : Evidence) (options : Options) (root : Option Bytes) (responses : Option HttpResponses)
      → find_collateral crypto take_pem att
          (record options { root_ca_certificate = root })
          responses
        ≡ find_collateral crypto take_pem att options responses
      → verify crypto take_pem json parse_time_point att
          (record options { root_ca_certificate = root })
          responses
        ≡ verify crypto take_pem json parse_time_point att options responses
  unfolding verify verify_full partial_verify certified check_pck check_collateral verify_tcb
      verify_qe_id
  verify_ignores_root att options root responses same = rw same refl
