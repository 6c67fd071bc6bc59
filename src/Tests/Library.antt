-- ===== src/Tests/Library.antt =====
-- Parameters of the tests.
use ravl.Prelude.{ℕ, true, List, [], ◌∷◌, ◌++◌, Bytes, replicate}
use ravl.Result.{Result, ok, err, runtime_error}
use ravl.Crypto.{OpenSsl}

-- A library that finds every signature good, and certificates that are numbers.
abbrev pub library : OpenSsl
library = record {
  X509 = ℕ;
  Store = Unit {0};
  Key = ℕ;
  Sequence = ℕ;
  new_store = tt;
  add_crl = λ s b. ok s;
  add_pem = λ s b. ok s;
  add = λ s c. ok s;
  read_stack = λ b. ok (1 ∷ 2 ∷ []);
  read_pem = λ b. ok 1;
  verify_cert = λ o s t cs. ok cs;
  has_common_name = λ c n. true;
  has_public_key = λ c k. true;
  is_ca = λ c. true;
  public_key = λ c. ok c;
  p256_key = λ b. ok 0;
  digest = λ bs. replicate 32 0;
  signature_to_der = λ b. ok b;
  verify_digest = λ k h s. ok true;
  Crl = Unit {0};
  read_crl = λ b. ok tt;
  add_parsed_crl = λ s c. ok s;
  read_der = λ b. ok 3;
  pem = λ c. c ∷ [];
  crl_pem = λ c. 9 ∷ [];
  digest_384 = λ b. replicate 48 0;
  coordinates_to_der = λ r s. ok (r ++ s);
  extension = λ c oid. err (runtime_error "no extension");
  size = λ s. 0;
  get_octet_string = λ s i oid. ok [];
  get_number = λ s i oid. ok 0;
  get_bool = λ s i oid. ok true;
  get_seq = λ s i oid. ok s;
}

-- A `vformat` that puts nothing in.
abbrev pub plain : Bytes → List Bytes → Result Bytes
plain tmpl args = ok tmpl
