-- ===== src/Aci.antt =====
-- The verification of ACI attestations, include/ravl/aci_impl.h.
pub mod Cose
pub mod Did
pub mod Roots
pub mod Endorsements
pub mod Verify
