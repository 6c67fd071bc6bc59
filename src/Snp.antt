-- ===== src/Snp.antt =====
-- AMD SEV/SNP attestations: include/ravl/sev_snp_impl.h.
pub mod Urls
pub mod Responses
pub mod Claims
pub mod Verify
