-- ===== src/Aci/Did.antt =====
-- include/ravl/jwk.h and include/ravl/did.h: the documents that hold the keys, as they are read.
use ravl.Prelude.{List, [], ◌∷◌, Option, none, some, Bytes, codes, bytes_eq, if◌then◌else◌}
use ravl.Result.{Result, ok, err, logic_error, ◌>>=◌}
use ravl.Json.{JsonLibrary}

pub data CurveId : Type 0 where
  no_curve secp384r1 secp256r1 secp256k1 curve25519 x25519 : CurveId

pub data JsonWebKeyEcCurve : Type 0 where
  p256 p256k1 p384 p521 : JsonWebKeyEcCurve

unfoldable pub curve_id_to_jwk_curve : CurveId → Result JsonWebKeyEcCurve
curve_id_to_jwk_curve CurveId.secp384r1 = ok JsonWebKeyEcCurve.p384
curve_id_to_jwk_curve CurveId.secp256r1 = ok JsonWebKeyEcCurve.p256
curve_id_to_jwk_curve CurveId.secp256k1 = ok JsonWebKeyEcCurve.p256k1
curve_id_to_jwk_curve curve_id = err (logic_error "Unknown curve")

unfoldable pub jwk_curve_to_curve_id : JsonWebKeyEcCurve → Result CurveId
jwk_curve_to_curve_id JsonWebKeyEcCurve.p384 = ok CurveId.secp384r1
jwk_curve_to_curve_id JsonWebKeyEcCurve.p256 = ok CurveId.secp256r1
jwk_curve_to_curve_id JsonWebKeyEcCurve.p256k1 = ok CurveId.secp256k1
jwk_curve_to_curve_id JsonWebKeyEcCurve.p521 = err (logic_error "Unknown JWK curve")

pub data JsonWebKeyType : Type 0 where
  ec rsa okp : JsonWebKeyType

pub record JsonWebKeyRsaPublic : Type 0 where
  pub kty : JsonWebKeyType
  pub kid : Option Bytes
  pub x5c : Option (List Bytes)
  pub n : Bytes
  pub e : Bytes

pub record VerificationMethod : Type 0 where
  pub id : Bytes
  pub type : Bytes
  pub controller : Bytes
  pub public_key_jwk : JsonWebKeyRsaPublic

-- `context` is not read.
pub record DidDocument : Type 0 where
  pub id : Bytes
  pub context : Bytes
  pub verification_method : List VerificationMethod
  pub assertion_method : Bytes

-- The type of the key, `before` if it is left as it was: for OKP the code compares instead of
-- assigning.
unfoldable pub read_kty : JsonWebKeyType → Bytes → Result JsonWebKeyType
read_kty before kty =
    if bytes_eq kty (codes "RSA")
    then ok JsonWebKeyType.rsa
    else if bytes_eq kty (codes "EC")
    then ok JsonWebKeyType.ec
    else if bytes_eq kty (codes "OKP")
    then ok before
    else err (logic_error "Unsupported Json Web Key Type")

-- `at_key` is `at`, which throws for a missing key, and `get_array` a `get` of a vector.
module _ (json : JsonLibrary) (at_key : json.Json → Bytes → Result json.Json)
    (get_array : json.Json → Result (List json.Json)) where
  -- `j.at(key).get_to(...)` of a string
  unfoldable pub string_at : json.Json → Bytes → Result Bytes
  string_at j key = do v ← at_key j key; json.get_string v

  -- Keys are read into new objects, whose `kty` is 0, which is EC.
  unfoldable pub read_key : json.Json → Result JsonWebKeyRsaPublic
  unfolding string_at read_kty
  read_key j = do
    name ← string_at j (codes "kty")
    kty ← read_kty JsonWebKeyType.ec name
    n ← string_at j (codes "n")
    e ← string_at j (codes "e")
    ok (record { kty = kty; kid = none; x5c = none; n = n; e = e })

  unfoldable pub read_method : json.Json → Result VerificationMethod
  unfolding string_at read_key
  read_method j = do
    id ← string_at j (codes "id")
    type ← string_at j (codes "type")
    controller ← string_at j (codes "controller")
    k ← at_key j (codes "publicKeyJwk")
    key ← read_key k
    ok (record { id = id; type = type; controller = controller; public_key_jwk = key })

  unfoldable pub read_methods : List json.Json → Result (List VerificationMethod)
  unfolding read_method
  read_methods [] = ok []
  read_methods (j ∷ js) = do m ← read_method j; ms ← read_methods js; ok (m ∷ ms)

  unfoldable pub read_document : json.Json → Result DidDocument
  unfolding string_at read_methods
  read_document j = do
    id ← string_at j (codes "id")
    v ← at_key j (codes "verificationMethod")
    js ← get_array v
    methods ← read_methods js
    assertion_method ← string_at j (codes "assertionMethod")
    ok (record {
      id = id;
      context = [];
      verification_method = methods;
      assertion_method = assertion_method;
    })

-- The key of the first method whose controller is the DID.
unfoldable pub find_key : Bytes → List VerificationMethod → Option JsonWebKeyRsaPublic
find_key did [] = none
find_key did (vm ∷ vms) =
    if bytes_eq vm.controller did then some vm.public_key_jwk else find_key did vms
