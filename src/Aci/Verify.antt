-- ===== src/Aci/Verify.antt =====
-- `aci::Attestation::verify` of include/ravl/aci_impl.h.
pub mod Sound
pub mod Complete
use ravl.Prelude.{Option, Bytes}
use ravl.Result.{Result, ok, ◌>>=◌}
use ravl.Options.{Options}
use ravl.Http.Message.{HttpResponses}
use ravl.Crypto.{OpenSsl}
use ravl.Json.{JsonLibrary}
use ravl.Sgx.Verify.{Evidence}
use ravl.Snp.Claims.{Claims}
use ravl.Snp.Verify
use ravl.Aci.Cose.{Qcbor}
use ravl.Aci.Endorsements.{UvmLibrary, verify_uvm_endorsements}

-- `aci::Attestation`
pub record AciAttestation : Type 0 where
  pub base : Evidence
  pub uvm_endorsements : Bytes

module _ (qcbor : Qcbor) (crypto : OpenSsl) (json : JsonLibrary)
    (uvm : UvmLibrary crypto json) where
  -- What `verify_uvm_endorsements` returns is not kept.
  unfoldable pub verify : AciAttestation → Options → Option HttpResponses → Result Claims
  verify att options responses = do
    snp_claims ← Verify.verify crypto att.base options responses
    _ ←
        verify_uvm_endorsements qcbor crypto json uvm att.uvm_endorsements
          snp_claims.report.measurement
    ok snp_claims
