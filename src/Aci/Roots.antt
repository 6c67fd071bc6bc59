-- ===== src/Aci/Roots.antt =====
-- The roots of trust of include/ravl/uvm_endorsements.h.
pub mod Order
use ravl.Prelude.{
  Bool, true, false, ◌&&◌, ◌||◌, List, [], ◌∷◌, ◌++◌, Bytes, codes, bytes_eq, ltb, ◌==◌,
  if◌then◌else◌,
}

pub record UvmEndorsements : Type 0 where
  pub did : Bytes
  pub feed : Bytes
  pub svn : Bytes

-- `<=` of `std::string`
unfoldable pub bytes_leb : Bytes → Bytes → Bool
bytes_leb [] ys = true
bytes_leb (x ∷ xs) [] = false
bytes_leb (x ∷ xs) (y ∷ ys) = ltb x y || (x == y && bytes_leb xs ys)

-- The two literals that the DIDs begin with.
abbrev pub did_prefix : Bytes
did_prefix = codes "did:x509:0:sha256:I__iuL25oXEVFdTP_aBLx_eT1RPHbCQ_ECBQfYZpt9s::eku:1.3.6."

abbrev pub uvm_roots_of_trust : List UvmEndorsements
uvm_roots_of_trust =
    record {
      did = did_prefix ++ codes "1.4.1.311.76.59.1.2";
      feed = codes "ContainerPlat-AMD-UVM";
      svn = codes "0";
    }
    ∷ record {
      did = did_prefix ++ codes "1.4.1.311.76.59.1.5";
      feed = codes "ConfAKS-AMD-UVM";
      svn = codes "0";
    }
    ∷ []

unfoldable pub matches_any : List UvmEndorsements → UvmEndorsements → Bool
unfolding bytes_leb
matches_any [] endorsements = false
matches_any (root ∷ roots) endorsements =
    if bytes_eq root.did endorsements.did
      && bytes_eq root.feed endorsements.feed
      && bytes_leb root.svn endorsements.svn
    then true
    else matches_any roots endorsements

unfoldable pub matches_uvm_roots_of_trust : UvmEndorsements → Bool
unfolding matches_any
matches_uvm_roots_of_trust endorsements = matches_any uvm_roots_of_trust endorsements
