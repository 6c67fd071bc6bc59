-- ===== src/Sgx/Identity/Accepted.antt =====
-- What holds of the quoting enclave's identity that is accepted.
use ravl.Prelude.{
  ℕ, ◌≡◌, refl, ap, ◌∙◌, Bool, true, false, not, ◌&&◌, ◌||◌, ltb, Bytes, List, codes, bytes_eq,
  bytes_eq→eq, arith, leb, ◌==◌,
}
use ravl.Result.{Result, ok, throw_if, rethrow, bind_returned, throw_if_passed, rethrow_passed}
use ravl.Options.{Options}
use ravl.Crypto.{OpenSsl, front, back, verify_certificate_chain, verify_signature}
use ravl.Json.{JsonLibrary, signed_part}
use ravl.Sgx.Verify.Sound.{throw_if_and}
use ravl.Util.Hex.{from_hex}
use ravl.Sgx.Claims.{ReportBody}
use ravl.Sgx.Tcb.{intel_root_public_key_pem, string_at, number_of}
use ravl.Sgx.Identity.{
  QeLevel, find_qe_level, check_kind, check_qe_dates, check_signer, read_identity, verify_qe_id,
}

module _ (json : JsonLibrary) (parse_time_point : Bytes → Result ℕ) where
  -- The identity has the enclave's signer and product, and the enclave is newer than the level,
  -- unless old ones are wanted.
  pub record IsCurrent (text : Bytes) (report : ReportBody) (historical : Bool) : Type 0 where
    pub document : json.Json
    pub identity : json.Json
    pub level : QeLevel
    pub parsed : json.parse text ≡ ok document
    pub at_identity : json.at document (codes "enclaveIdentity") ≡ ok identity
    pub found : find_qe_level json parse_time_point identity report ≡ ok level
    pub signer : Bytes
    pub at_signer : string_at json parse_time_point identity (codes "mrsigner") ≡ ok signer
    pub same_signer : from_hex signer ≡ ok report.mr_signer
    pub same_product :
        number_of json parse_time_point 16 identity (codes "isvprodid") ≡ ok report.isv_prod_id
    pub newer : (historical || ltb level.isv_svn report.isv_svn) ≡ true

  newer_level :
      (historical : Bool) (a b : ℕ) {u : Unit {0}}
      → throw_if (not historical && leb b a) "QE isv svn too small" ≡ ok u
      → (historical || ltb a b) ≡ true
  newer_level true a b e = refl
  newer_level false a b e = ground (arith)

  check_signer_lem :
      (identity : json.Json) (report : ReportBody) (level : QeLevel) (historical : Bool)
      {u : Unit {0}}
      → check_signer json parse_time_point identity report level historical ≡ ok u
      → (hex : Bytes) × (string_at json parse_time_point identity (codes "mrsigner") ≡ ok hex)
        × (from_hex hex ≡ ok report.mr_signer)
        × (number_of json parse_time_point 16 identity (codes "isvprodid") ≡ ok report.isv_prod_id)
        × ((historical || ltb level.isv_svn report.isv_svn) ≡ true)
  unfolding check_signer
  check_signer_lem identity report level historical e =
      let (hex, e₁, f₁) =
        bind_returned (string_at json parse_time_point identity (codes "mrsigner")) _ e in
      let (mrsigner, e₂, f₂) = bind_returned (from_hex hex) _ e₁ in
      let (_, e₃, t₃) =
        bind_returned (throw_if (not (bytes_eq mrsigner report.mr_signer)) "QE mrsigner mismatch") _
          e₂ in
      let (isv_prod_id, e₄, f₄) =
        bind_returned (number_of json parse_time_point 16 identity (codes "isvprodid")) _ e₃ in
      let (_, e₅, t₅) =
        bind_returned (throw_if (not (isv_prod_id == report.isv_prod_id)) "QE isv prod id mismatch")
          _ e₄ in
      let same = bytes_eq→eq mrsigner report.mr_signer (throw_if_passed _ _ t₃) in
      let product = throw_if_passed (isv_prod_id == report.isv_prod_id) _ t₅ in
      let equal : isv_prod_id ≡ report.isv_prod_id = ground (arith, product) in
      (
        hex,
        f₁,
        f₂ ∙ ap ok same,
        f₄ ∙ ap ok equal,
        newer_level historical level.isv_svn report.isv_svn e₅,
      )

  read_identity-IsCurrent :
      (text : Bytes) (report : ReportBody) (historical : Bool) (signature : Bytes)
      → read_identity json parse_time_point text report historical ≡ ok signature
      → IsCurrent text report historical
  unfolding read_identity
  read_identity-IsCurrent text report historical signature e =
      let (document, e₁, f₁) = bind_returned (json.parse text) _ e in
      let (identity, e₂, f₂) = bind_returned (json.at document (codes "enclaveIdentity")) _ e₁ in
      let (_, e₃, _) = bind_returned (check_kind json parse_time_point identity) _ e₂ in
      let (level, e₄, f₄) =
        bind_returned (find_qe_level json parse_time_point identity report) _ e₃ in
      let (_, e₅, _) = bind_returned (check_qe_dates json parse_time_point identity) _ e₄ in
      let (_, _, f₆) =
        bind_returned (check_signer json parse_time_point identity report level historical) _ e₅ in
      let (hex, f₇, f₈, f₉, newer) = check_signer_lem identity report level historical f₆ in
      record {
        document = document;
        identity = identity;
        level = level;
        parsed = f₁;
        at_identity = f₂;
        found = f₄;
        signer = hex;
        at_signer = f₇;
        same_signer = f₈;
        same_product = f₉;
        newer = newer;
      }

  module _ (crypto : OpenSsl) where
    -- The report's chain of the issuer is verified, the signature is that of its leaf over the part of
    -- the text between `"enclaveIdentity":` and the last `,"signature":"`, and the identity is current.
    pub record IsIdentified (issuer_chain text : Bytes) (report : ReportBody) (store : crypto.Store)
        (options : Options) : Type 0 where
      pub chain : List crypto.X509
      pub store' : crypto.Store
      pub leaf : crypto.X509
      pub key : crypto.Key
      pub message : Bytes
      pub signature : Bytes
      pub chain_verified :
          verify_certificate_chain crypto issuer_chain store options.certificate_verification false
          ≡ ok (chain, store')
      pub at_front : front chain ≡ ok leaf
      pub of_leaf : crypto.public_key leaf ≡ ok key
      pub root : crypto.X509
      pub at_back : back chain ≡ ok root
      pub manufacturer :
          (not options.check_root_certificate_manufacturer_key
            || crypto.has_public_key root intel_root_public_key_pem)
          ≡ true
      pub current : IsCurrent text report options.historical
      pub located :
          signed_part text (codes "\"enclaveIdentity\":") (codes ",\"signature\":\"") ≡ ok message
      pub signed : verify_signature crypto key message signature ≡ ok true

    -- An identity that `verify_qe_id` accepts: the issuer's certificate chain is verified, its leaf's
    -- key has signed the located part of the text, the chain's root has Intel's key if the options
    -- want it, the identity's signer and product are the report's, and the level found for the report
    -- has a security version that is strictly smaller than the report's, unless the options want
    -- historical levels.
    pub verify_qe_id-IsIdentified :
        (issuer_chain text : Bytes) (report : ReportBody) (store : crypto.Store) (options : Options)
        {b : Bool}
        → verify_qe_id json parse_time_point crypto issuer_chain text report store options ≡ ok b
        → IsIdentified issuer_chain text report store options
    unfolding verify_qe_id
    verify_qe_id-IsIdentified issuer_chain text report store options e =
        let ((chain, store'), e₁, f₁) =
          bind_returned
            (verify_certificate_chain crypto issuer_chain store options.certificate_verification
              false)
            _ e in
        let (leaf, e₂, f₂) = bind_returned (front chain) _ e₁ in
        let (root, e₃, f₃) = bind_returned (back chain) _ e₂ in
        let (key, e₄, f₄) = bind_returned (crypto.public_key leaf) _ e₃ in
        let (_, e₅, f₅) =
          bind_returned
            (throw_if
              (options.check_root_certificate_manufacturer_key
                && not (crypto.has_public_key root intel_root_public_key_pem))
              "QE identity issuer root certificate does not use the expected Intel SGX public key")
            _ e₄ in
        let (signature, e₆, f₆) =
          bind_returned
            (rethrow "incorrectly formatted SGX QE ID: {}"
              (read_identity json parse_time_point text report options.historical))
            _ e₅ in
        let (message, e₇, f₇) =
          bind_returned
            (signed_part text (codes "\"enclaveIdentity\":") (codes ",\"signature\":\"")) _ e₆ in
        let (good, e₈, f₈) = bind_returned (verify_signature crypto key message signature) _ e₇ in
        let (_, _, t₉) =
          bind_returned (throw_if (not good) "QE identity signature verification failed") _ e₈ in
        record {
          chain = chain;
          store' = store';
          leaf = leaf;
          key = key;
          message = message;
          signature = signature;
          chain_verified = f₁;
          at_front = f₂;
          of_leaf = f₄;
          root = root;
          at_back = f₃;
          manufacturer =
              throw_if_and options.check_root_certificate_manufacturer_key
                (crypto.has_public_key root intel_root_public_key_pem) _ f₅;
          current = read_identity-IsCurrent text report options.historical signature (
              rethrow_passed _ (read_identity json parse_time_point text report options.historical)
                signature f₆);
          located = f₇;
          signed = f₈ ∙ ap ok (throw_if_passed good _ t₉);
        }
