-- ===== src/OpenEnclave/CustomClaims.antt =====
-- `extract_custom_claims` of include/ravl/oe_impl.h.
pub mod Entries
pub mod Defined
use ravl.Prelude.{
  ℕ, zero, suc, ◌+◌, ◌-◌, ◌*◌, Bool, not, List, [], ◌∷◌, Bytes, length, ltb, ◌==◌, if◌then◌else◌,
}
use ravl.Result.{Result, ok, undefined, throw_if, ◌>>=◌, ◌>>◌}
use ravl.Util.Cursor.{max_size}
use ravl.Http.Message.{Headers, emplace_header}
use ravl.Sgx.Layout.{Span, bytes_at, number_at, verify_within}

-- A span of a size that the evidence gives. One that is larger than every object may wrap around
-- the address space, which is undefined.
unfoldable pub verify_size : Span → Bytes → Result (Unit {0})
verify_size s bytes = if ltb max_size s.size then undefined else verify_within s bytes

-- The entry at offset `p`: its two sizes, the name with a NUL, and the value.
unfoldable pub read_claim : Bytes → ℕ → Result (Bytes × Bytes)
unfolding verify_size
read_claim bytes p = do
  verify_within (record { offset = p; size = 16 }) bytes
  name_size ← number_at bytes p 8
  verify_size (record { offset = p + 16; size = name_size }) bytes
  value_size ← number_at bytes (p + 8) 8
  verify_size (record { offset = p + 16 + name_size; size = value_size }) bytes
  throw_if (name_size == 0) "custom claim name is an unterminated string"
  last ← number_at bytes (p + 16 + name_size - 1) 1
  throw_if (not (last == 0)) "custom claim name is an unterminated string"
  name ← bytes_at bytes (p + 16) (name_size - 1)
  value ← bytes_at bytes (p + 16 + name_size) value_size
  ok (name, value)

-- The loop with `k` of its rounds left. Entry `i` is read behind `i` entries of 16 bytes, without
-- the names and values that follow each of them.
unfoldable pub read_claims : Bytes → ℕ → ℕ → Headers → Result Headers
unfolding read_claim emplace_header
read_claims bytes zero i claims_map = ok claims_map
read_claims bytes (suc k) i claims_map = do
  (name, value) ← read_claim bytes (16 + 16 * i)
  read_claims bytes k (i + 1) (emplace_header claims_map name value)

-- The claims behind a whole header.
unfoldable pub read_all : Bytes → Headers → Result Headers
unfolding read_claims
read_all custom_claims claims_map = do
  version ← number_at custom_claims 0 8
  throw_if (not (version == 1)) "unsupported custom claims version"
  num_claims ← number_at custom_claims 8 8
  read_claims custom_claims num_claims 0 claims_map

unfoldable pub extract_custom_claims : Bytes → Headers → Result Headers
unfolding read_all
extract_custom_claims custom_claims claims_map =
    if ltb (length custom_claims) 16 then ok claims_map else read_all custom_claims claims_map
