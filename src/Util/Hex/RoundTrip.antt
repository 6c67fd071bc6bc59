-- ===== src/Util/Hex/RoundTrip.antt =====
-- `from_hex` undoes `to_hex`, and what it does on the strings that `to_hex` never prints.
use ravl.Prelude.{
  ℕ, zero, suc, ◌*◌, ◌/◌, ◌%◌, ◌<◌, ◌≡◌, refl, Bool, true, false, ◌&&◌, not, [], ◌∷◌, Option, none,
  some, Bytes, IsByte, All, ◌==◌, length, drop, arith, ◌⊎◌, inl, inr, Bool-cases, Option-cases,
}
use ravl.Prelude.Tables.{table, table_entry}
use ravl.Result.{ok, err, runtime_error}
use ravl.Util.Hex.{is_space, scan_field, scan_hhx, from_hex_loop, from_hex, hex_digit, to_hex}

-- The two digits of `b` scan to `b`.
abbrev scans_to : Option ℕ → ℕ → Bool
scans_to none b = false
scans_to (some v) b = v == b

abbrev digits_scan : ℕ → Bool
digits_scan b =
    let c = hex_digit (b / 16) in
    scans_to (scan_field (c ∷ hex_digit (b % 16) ∷ [])) b && not (is_space c)

byte_table : table digits_scan 256 ≡ true
unfolding table to_hex scan_hhx
byte_table = refl

scans_to→eq : (o : Option ℕ) (b : ℕ) → scans_to o b ≡ true → o ≡ some b
scans_to→eq none b h = ground arith
scans_to→eq (some v) b h = ground arith

scan_field_rest : (c d : ℕ) (rest : Bytes) → scan_field (c ∷ d ∷ rest) ≡ scan_field (c ∷ d ∷ [])
unfolding scan_field
scan_field_rest c d rest = refl

scan-to_hex :
    (b : ℕ) (rest : Bytes)
    → b < 256
    → scan_hhx (hex_digit (b / 16) ∷ hex_digit (b % 16) ∷ rest) ≡ some b
unfolding scan_hhx
scan-to_hex b rest h = ground (
  arith,
  table_entry digits_scan 256 b h byte_table,
  scan_field_rest (hex_digit (b / 16)) (hex_digit (b % 16)) rest,
  scans_to→eq (scan_field (hex_digit (b / 16) ∷ hex_digit (b % 16) ∷ [])) b,
)

pub length-to_hex : (v : Bytes) → length (to_hex v) ≡ 2 * length v
unfolding to_hex
length-to_hex [] = refl
length-to_hex (b ∷ v) = omega (arith, length-to_hex v)

from_hex_loop-to_hex : (v : Bytes) → All IsByte v → from_hex_loop (length v) (to_hex v) ≡ some v
unfolding from_hex_loop to_hex
from_hex_loop-to_hex [] h = refl
from_hex_loop-to_hex (b ∷ v) h =
    ground (arith, scan-to_hex b (to_hex v) h.0, from_hex_loop-to_hex v h.1)

-- Every byte vector is read back from its lower-case hexadecimal digits.
from_hex-to_hex : (v : Bytes) → All IsByte v → from_hex (to_hex v) ≡ ok v
unfolding from_hex
from_hex-to_hex v h =
    let half : length (to_hex v) / 2 ≡ length v = omega (arith, length-to_hex v) in
    ground (arith, length-to_hex v, half, from_hex_loop-to_hex v h)

length-from_hex_loop : (k : ℕ) (s v : Bytes) → from_hex_loop k s ≡ some v → length v ≡ k
unfolding from_hex_loop
length-from_hex_loop zero s v e = ground arith
length-from_hex_loop (suc k) s [] e = ground arith
length-from_hex_loop (suc k) s (t ∷ v) e = ground (arith, length-from_hex_loop k (drop 2 s) v)

-- On any string the result is an exception for an odd length, and else a vector that is empty, which
-- is how a failed conversion shows, or has one byte for each two characters.
from_hex_lengths :
    (s : Bytes)
    → ((length s % 2 ≡ 1) × (from_hex s ≡ err (runtime_error "odd number of hex digits")))
      ⊎ ((v : Bytes) × (from_hex s ≡ ok v) × ((v ≡ []) ⊎ (length v * 2 ≡ length s)))
unfolding from_hex
from_hex_lengths s = elim (Bool-cases (length s % 2 == 1)) [
  | inl odd ↦ inl (ground arith, rw odd)
  | inr even ↦ elim (Option-cases (from_hex_loop (length s / 2) s)) [
    | inl failed ↦ inr ([], rw (even, failed), inl refl)
    | inr (v, done) ↦
        inr (v, rw (even, done), inr (ground (arith, length-from_hex_loop (length s / 2) s v)))
  ]
]
