-- ===== src/Aci/Roots/Order.antt =====
-- What the comparison of security versions as strings comes to.
use ravl.Prelude.{
  ◌≡◌, refl, Bool, true, false, ◌&&◌, ◌||◌, [], ◌∷◌, ◌++◌, Bytes, codes, bytes_eq, leb, arith,
  if◌then◌else◌,
}
use ravl.Aci.Roots.{UvmEndorsements, bytes_leb, did_prefix, matches_any, matches_uvm_roots_of_trust}

-- The feed is the one that goes with the DID.
abbrev pub is_known : UvmEndorsements → Bool
is_known e =
    (bytes_eq (did_prefix ++ codes "1.4.1.311.76.59.1.2") e.did
      && bytes_eq (codes "ContainerPlat-AMD-UVM") e.feed)
    || (bytes_eq (did_prefix ++ codes "1.4.1.311.76.59.1.5") e.did
        && bytes_eq (codes "ConfAKS-AMD-UVM") e.feed)

abbrev pub starts_at_zero : Bytes → Bool
starts_at_zero [] = false
starts_at_zero (c ∷ svn) = leb b'0' c

zero_leb : (svn : Bytes) → bytes_leb (codes "0") svn ≡ starts_at_zero svn
unfolding bytes_leb
zero_leb [] = refl
zero_leb (c ∷ svn) = ground arith

either_root :
    (a b c d v : Bool)
    → (if a && b && v then true else if c && d && v then true else false)
      ≡ (((a && b) || (c && d)) && v)
either_root a b c d v = ground arith

-- Endorsements match the roots of trust exactly if their DID and their feed are those of one root,
-- and the first character of their security version is not before '0': the version is compared as
-- a string, and not as a number.
pub matches_uvm_roots_of_trust_lem :
    (e : UvmEndorsements) → matches_uvm_roots_of_trust e ≡ (is_known e && starts_at_zero e.svn)
unfolding matches_uvm_roots_of_trust matches_any
matches_uvm_roots_of_trust_lem e = rw (zero_leb e.svn) (
    either_root (bytes_eq (did_prefix ++ codes "1.4.1.311.76.59.1.2") e.did)
      (bytes_eq (codes "ContainerPlat-AMD-UVM") e.feed)
      (bytes_eq (did_prefix ++ codes "1.4.1.311.76.59.1.5") e.did)
      (bytes_eq (codes "ConfAKS-AMD-UVM") e.feed) (starts_at_zero e.svn))
