-- ===== src/Sgx/Layout.antt =====
-- Reads through the packed structures of include/ravl/sgx_defs.h, and `verify_within` of
-- include/ravl/util.h. A pointer is an offset from the first byte of the evidence.
pub mod Parts
use ravl.Prelude.{
  ℕ, ◌+◌, ◌*◌, ◌/◌, ◌%◌, ◌≤◌, ◌≡◌, ◌≢◌, ◌<◌, Bool, true, ◌&&◌, [], ◌∷◌, Bytes, arith, not, length,
  take, drop, leb, ltb, if◌then◌else◌,
}
use ravl.Result.{Result, ok, undefined, throw_if, throw_if_defined, ◌>>=◌}

pub record Span : Type 0 where
  pub offset : ℕ
  pub size : ℕ

-- The structures' sizes and the offsets of their fields.
abbrev pub quote_size : ℕ
quote_size = 436

abbrev pub signature_data_size : ℕ
signature_data_size = 576

abbrev pub report_body_size : ℕ
report_body_size = 384

-- A number in the memory of a little-endian machine.
abbrev pub little_endian : Bytes → ℕ
little_endian [] = 0
little_endian (b ∷ bs) = b + 256 * little_endian bs

-- A `uint32_t` in its memory.
abbrev pub cell : ℕ → Bytes
cell n = (n % 256) ∷ (n / 256 % 256) ∷ (n / 65536 % 256) ∷ (n / 16777216 % 256) ∷ []

-- What a pointer into the evidence reads; behind the end it is undefined.
unfoldable pub bytes_at : Bytes → ℕ → ℕ → Result Bytes
bytes_at evidence offset size =
    if leb (offset + size) (length evidence)
    then ok (take size (drop offset evidence))
    else undefined

unfoldable pub number_at : Bytes → ℕ → ℕ → Result ℕ
unfolding bytes_at
number_at evidence offset size = do bs ← bytes_at evidence offset size; ok (little_endian bs)

-- The first byte of the span and its last, `data() + size() - 1`, point into the vector.
abbrev pub in_vector : Span → Bytes → Bool
in_vector s bytes =
    ltb s.offset (length bytes)
    && (ltb 0 (s.offset + s.size) && leb (s.offset + s.size) (length bytes))

unfoldable pub verify_within : Span → Bytes → Result (Unit {0})
verify_within s bytes = throw_if (not (in_vector s bytes)) "invalid pointer"

abbrev pub IsWithin : Span → Bytes → Type 0
IsWithin s bytes = s.offset + s.size ≤ length bytes

IsWithin-in_vector : (s : Span) (bytes : Bytes) → in_vector s bytes ≡ true → IsWithin s bytes
IsWithin-in_vector s bytes h = ground arith

pub IsWithin-verify_within :
    (s : Span) (bytes : Bytes) {u : Unit {0}} → verify_within s bytes ≡ ok u → IsWithin s bytes
unfolding verify_within
IsWithin-verify_within s bytes h = ground (arith)

pub verify_within_ok :
    (s : Span) (bytes : Bytes) → 0 < s.size → IsWithin s bytes → verify_within s bytes ≡ ok tt
unfolding verify_within
verify_within_ok s bytes some_bytes h = ground (arith)

pub verify_within_defined : (s : Span) (bytes : Bytes) → verify_within s bytes ≢ undefined
unfolding verify_within
verify_within_defined s bytes = throw_if_defined _ _

pub number_at_defined :
    (evidence : Bytes) (offset size : ℕ)
    → offset + size ≤ length evidence
    → number_at evidence offset size ≢ undefined
unfolding number_at bytes_at
number_at_defined evidence offset size h = ground (arith)

pub number_at_undefined :
    (evidence : Bytes) (offset size : ℕ)
    → length evidence < offset + size
    → number_at evidence offset size ≡ undefined
unfolding number_at bytes_at
number_at_undefined evidence offset size h = ground (arith)
