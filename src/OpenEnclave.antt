-- ===== src/OpenEnclave.antt =====
-- Open Enclave attestations, of include/ravl/oe.h and include/ravl/oe_impl.h, as they are built
-- without Open Enclave's own verifier.
pub mod Endorsements
pub mod CustomClaims
pub mod Extract
pub mod Verify
pub mod Compress
