-- ===== src/Crypto.antt =====
-- `verify_certificate_chain` of include/ravl/crypto.h. The classes of include/ravl/openssl.hpp, which
-- pass calls on to OpenSSL, are a record of operations.
use ravl.Prelude.{
  ℕ, Bool, List, [], ◌∷◌, Bytes, ◌+◌, codes, take, drop, length, none, some, Option, get_elem?, leb,
  ltb, if◌then◌else◌,
}
use ravl.Util.Search.{find_first}
use ravl.Result.{Result, ok, throw_if, rethrow, deref, ◌>>=◌, ◌>>◌}
use ravl.Options.{CertificateValidationOptions}

-- `Store` is an X509_STORE that checks revocation for every certificate of a chain.
pub record OpenSsl : Type 1 where
  pub X509 : Type 0
  pub Store : Type 0
  pub Key : Type 0
  pub Sequence : Type 0
  pub new_store : Store
  pub add_crl : Store → Bytes → Result Store
  pub add_pem : Store → Bytes → Result Store
  pub add : Store → X509 → Result Store
  pub read_stack : Bytes → Result (List X509)
  pub read_pem : Bytes → Result X509
  -- `X509_verify_cert`: the chain that it builds for the target from the stack and the store
  pub verify_cert : CertificateValidationOptions → Store → X509 → List X509 → Result (List X509)
  pub has_common_name : X509 → Bytes → Bool
  pub has_public_key : X509 → Bytes → Bool
  pub is_ca : X509 → Bool
  pub public_key : X509 → Result Key
  pub p256_key : Bytes → Result Key
  pub digest : List Bytes → Bytes
  pub signature_to_der : Bytes → Result Bytes
  pub verify_digest : Key → Bytes → Bytes → Result Bool
  -- revocation lists and certificates in DER, what they print, and SHA-384 with ECDSA coordinates
  pub Crl : Type 0
  pub read_crl : Bytes → Result Crl
  pub add_parsed_crl : Store → Option Crl → Result Store
  pub read_der : Bytes → Result X509
  pub pem : X509 → Bytes
  pub crl_pem : Crl → Bytes
  pub digest_384 : Bytes → Bytes
  pub coordinates_to_der : Bytes → Bytes → Result Bytes
  -- ASN.1: the sequence in a certificate's extension, and its elements by index and OID
  pub extension : X509 → Bytes → Result Sequence
  pub size : Sequence → ℕ
  pub get_octet_string : Sequence → ℕ → Bytes → Result Bytes
  pub get_number : Sequence → ℕ → Bytes → Result ℕ
  pub get_bool : Sequence → ℕ → Bytes → Result Bool
  pub get_seq : Sequence → ℕ → Bytes → Result Sequence

-- `back()`
abbrev pub back : {A : Type 0} → List A → Result A
back [] = deref none
back (x ∷ []) = ok x
back (x ∷ y ∷ xs) = back (y ∷ xs)

-- `front()`
abbrev pub front : {A : Type 0} → List A → Result A
front xs = deref (get_elem? xs 0)

abbrev pub pem_begin : Bytes
pem_begin = codes "-----BEGIN CERTIFICATE-----"

abbrev pub pem_end : Bytes
pem_end = codes "-----END CERTIFICATE-----"

-- What `extract_pem_certificate` returns; what it leaves of its argument is not used.
unfoldable pub extract_pem_certificate : Bytes → Bytes
extract_pem_certificate cert = elim (find_first cert pem_begin) [
  | none ↦ []
  | some from ↦
      let rest = drop (from + length pem_begin) cert in
      elim (find_first rest pem_end) [
        | none ↦ []
        | some to ↦ take (length pem_begin + to + length pem_end) (drop from cert)
      ]
]

module _ (crypto : OpenSsl) where
  -- The chain, and the store, to which a trusted root was added.
  unfoldable pub build_chain :
      crypto.Store
      → List crypto.X509
      → CertificateValidationOptions
      → Bool
      → Result (List crypto.X509 × crypto.Store)
  build_chain store stack options trusted_root = do
    throw_if (leb (length stack) 1) "certificate stack too small"
    store' ← (if trusted_root then (back stack >>= (λ root. crypto.add store root)) else ok store)
    target ← front stack
    chain ← crypto.verify_cert options store' target stack
    ok (chain, store')

  unfoldable pub checked_chain :
      crypto.Store
      → List crypto.X509
      → CertificateValidationOptions
      → Bool
      → Result (List crypto.X509 × crypto.Store)
  unfolding build_chain
  checked_chain store stack options trusted_root = do
    (chain, store') ← build_chain store stack options trusted_root
    throw_if (ltb (length chain) 2) "certificate chain is too short"
    ok (chain, store')

  unfoldable pub verify_certificate_chain :
      Bytes
      → crypto.Store
      → CertificateValidationOptions
      → Bool
      → Result (List crypto.X509 × crypto.Store)
  unfolding checked_chain
  verify_certificate_chain pem store options trusted_root = do
    stack ← crypto.read_stack pem
    rethrow "{}" (checked_chain store stack options trusted_root)

  -- `verify_signature` of include/ravl/sgx_impl.h
  unfoldable pub verify_signature : crypto.Key → Bytes → Bytes → Result Bool
  verify_signature key message signature = do
    der ← crypto.signature_to_der signature
    crypto.verify_digest key (crypto.digest (message ∷ [])) der
