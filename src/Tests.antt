-- ===== src/Tests.antt =====
-- Concrete runs, and the theorems at concrete inputs.
mod Http
mod Sgx
mod Attestation
mod Snp
mod Library
mod Verify
mod Current
mod Entry
mod OpenEnclave
mod Compress
mod Async
mod Aci
mod Capi
mod Fetch
mod Tracker
mod Util
