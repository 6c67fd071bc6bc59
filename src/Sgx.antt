-- ===== src/Sgx.antt =====
-- The verification of Intel SGX attestations, include/ravl/sgx_impl.h.
pub mod Collateral
pub mod Layout
pub mod Quote
pub mod Urls
pub mod Consume
pub mod Extension
pub mod Tcb
pub mod Claims
pub mod Identity
pub mod Verify
pub mod Compress
