-- ===== src/Util/Hex.antt =====
-- The hexadecimal helpers of include/ravl/util.h, and the `sscanf` conversion that they use.
pub mod RoundTrip
use Prim.Native.Nat.{bit_or}
use ravl.Prelude.{
  ℕ, zero, suc, ◌+◌, ◌-◌, ◌*◌, ◌/◌, ◌%◌, ◌^◌, Bool, true, false, ◌&&◌, ◌||◌, List, [], ◌∷◌, Option,
  none, some, Bytes, not, leb, ◌==◌, length, drop, if◌then◌else◌,
}
use ravl.Result.{Result, ok, err, throw_if, ◌>>=◌, ◌>>◌}

-- `isspace` and `isdigit` in the C locale
unfoldable pub is_space : ℕ → Bool
is_space c = c == b' ' || (leb 9 c && leb c 13)

unfoldable pub is_digit : ℕ → Bool
is_digit c = leb b'0' c && leb c b'9'

-- `tolower` in the C locale
unfoldable pub to_lower : ℕ → ℕ
to_lower c = if leb b'A' c && leb c b'Z' then c + 32 else c

-- The value of a hexadecimal digit.
unfoldable pub digit_value : ℕ → Option ℕ
digit_value c =
    if leb b'0' c && leb c b'9'
    then some (c - b'0')
    else if leb b'a' c && leb c b'f'
    then some (c - b'a' + 10)
    else if leb b'A' c && leb c b'F'
    then some (c - b'A' + 10)
    else none

-- A field of at most two characters, as `strtoul` reads it in base 16: a sign and a digit, or up to
-- two digits. The prefix `0x` alone is no number.
unfoldable pub scan_field : Bytes → Option ℕ
unfolding digit_value
scan_field [] = none
scan_field (c ∷ []) = digit_value c
scan_field (c ∷ d ∷ rest) =
    if c == b'+'
    then digit_value d
    else if c == b'-'
    then elim (digit_value d) [ none ↦ none | some v ↦ some ((256 - v) % 256) ]
    else if c == b'0' && (d == b'x' || d == b'X')
    then none
    else elim (digit_value c) [
      | none ↦ none
      | some high ↦ elim (digit_value d) [ none ↦ some high | some low ↦ some (high * 16 + low) ]
    ]

-- `sscanf(s, "%02hhx", &t)`: white space is skipped, and the field starts behind it.
unfoldable pub scan_hhx : Bytes → Option ℕ
unfolding is_space scan_field
scan_hhx [] = none
scan_hhx (c ∷ s) = let rest = scan_hhx s in if is_space c then rest else scan_field (c ∷ s)

-- The loops of `from_hex` and `vec_from_hex`: `k` rounds are left, and `s` is what `c_str() + i`
-- points at. A failed conversion gives up with `{}`, which `none` stands for.
unfoldable pub from_hex_loop : ℕ → Bytes → Option Bytes
unfolding scan_hhx
from_hex_loop zero s = some []
from_hex_loop (suc k) s =
    let rest = from_hex_loop k (drop 2 s) in
    elim (scan_hhx s) [ none ↦ none | some t ↦ elim rest [ none ↦ none | some ts ↦ some (t ∷ ts) ] ]

unfoldable pub from_hex : Bytes → Result Bytes
unfolding from_hex_loop
from_hex s = do
  throw_if (length s % 2 == 1) "odd number of hex digits"
  ok (elim (from_hex_loop (length s / 2) s) [ none ↦ [] | some r ↦ r ])

-- `from_hex_t<T>(s)` for a type of `w` bytes, little-endian: round `i` adds its byte at bit `8 * i`.
unfoldable pub little_endian_loop : ℕ → ℕ → Bytes → ℕ → Option ℕ
unfolding scan_hhx
little_endian_loop zero i s r = some r
little_endian_loop (suc k) i s r =
    let rest = λ (t : ℕ). little_endian_loop k (i + 1) (drop 2 s) (bit_or r (t * 2 ^ (8 * i))) in
    elim (scan_hhx s) [ none ↦ none | some t ↦ rest t ]

-- A failed conversion returns `T{}`, which is 0.
unfoldable pub from_hex_t : ℕ → Bytes → Result ℕ
unfolding little_endian_loop
from_hex_t w s = do
  throw_if (length s % 2 == 1) "odd number of hex digits"
  throw_if (not (2 * w == length s)) "hex string incomplete"
  ok (elim (little_endian_loop w 0 s 0) [ none ↦ 0 | some r ↦ r ])

-- One byte as `snprintf("%02x")` prints it.
unfoldable pub hex_digit : ℕ → ℕ
hex_digit v = if leb v 9 then v + b'0' else v - 10 + b'a'

unfoldable pub to_hex : Bytes → Bytes
unfolding hex_digit
to_hex [] = []
to_hex (b ∷ v) = hex_digit (b / 16) ∷ hex_digit (b % 16) ∷ to_hex v
