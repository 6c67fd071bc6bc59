-- ===== src/Util/Url/Laws.antt =====
-- `url_decode` fits its buffer on every input, and undoes percent-encoding.
use ravl.Prelude.{
  ℕ, suc, ◌+◌, ◌/◌, ◌%◌, ◌≤◌, ◌<◌, ◌≡◌, refl, Bool, true, false, not, ◌&&◌, ◌||◌, [], ◌∷◌, Bytes,
  All, ◌==◌, ==_iff, length, arith, if◌then◌else◌,
}
use ravl.Prelude.Tables.{table, table_entry}
use ravl.Util.Hex.{hex_digit, to_hex}
use ravl.Util.Url.{decode_pair, decode_char, url_decode_chars, until_nul, url_decode}

length-if :
    (b : Bool) (xs ys : Bytes) (n : ℕ)
    → length xs ≤ n
    → length ys ≤ n
    → length (if b then xs else ys) ≤ n
length-if true xs ys n hx hy = hx
length-if false xs ys n hx hy = hy

-- Every branch writes at most one byte for each character that it takes.
length-url_decode_chars : (s : Bytes) → length (url_decode_chars s) ≤ length s
unfolding url_decode_chars
length-url_decode_chars [] = omega arith
length-url_decode_chars (c ∷ []) =
    length-if (c == 0 || c == b'%') [] (decode_char c ∷ []) 1 (omega arith) (omega arith)
length-url_decode_chars (c ∷ d ∷ []) =
    let rest = url_decode_chars (d ∷ []) in
    let fits : length rest ≤ 1 = length-url_decode_chars (d ∷ []) in
    length-if (c == 0) [] _ 2 (omega arith)
      (length-if (c == b'%') rest (decode_char c ∷ rest) 2 (omega arith) (omega arith))
length-url_decode_chars (c ∷ d ∷ e ∷ s) =
    let rest = url_decode_chars (d ∷ e ∷ s) in
    let behind = url_decode_chars s in
    let fits : length rest ≤ length s + 2 = omega (arith, length-url_decode_chars (d ∷ e ∷ s)) in
    let fits' : length behind ≤ length s = length-url_decode_chars s in
    let n = suc (suc (suc (length s))) in
    let pair =
      length-if (not (d == 0) && not (e == 0)) (decode_pair d e ∷ behind) rest n (omega arith)
        (omega arith) in
    length-if (c == 0) [] _ n (omega arith)
      (length-if (c == b'%') _ (decode_char c ∷ rest) n pair (omega arith))

length-until_nul : (s : Bytes) → length (until_nul s) ≤ length s
unfolding until_nul
length-until_nul [] = omega arith
length-until_nul (c ∷ s) = ground (arith, length-until_nul s)

-- The reference encoder: every byte as `%` and two hexadecimal digits.
unfoldable pub url_encode : Bytes → Bytes
url_encode [] = []
url_encode (b ∷ s) = b'%' ∷ hex_digit (b / 16) ∷ hex_digit (b % 16) ∷ url_encode s

abbrev decoded_byte : ℕ → ℕ
decoded_byte b = decode_pair (hex_digit (b / 16)) (hex_digit (b % 16))

byte_table : table (λ b. decoded_byte b == b) 256 ≡ true
unfolding table decode_pair to_hex
byte_table = refl

decoded_byte_lem : (b : ℕ) → b < 256 → decoded_byte b ≡ b
decoded_byte_lem b h = (==_iff _ b).0 (table_entry _ 256 b h byte_table)

hex_digit_pos : (v : ℕ) → 0 < hex_digit v
unfolding hex_digit
hex_digit_pos v = ground arith

abbrev pub IsChar : ℕ → Type 0
IsChar b = (0 < b) × (b < 256)

-- The buffer of `len + 1` bytes is enough for every input, its NUL included.
length-url_decode : (s : Bytes) → length (url_decode s) ≤ length s
unfolding url_decode
length-url_decode s =
    omega (arith, length-until_nul (url_decode_chars s), length-url_decode_chars s)

url_decode_chars_pair :
    (b : ℕ) (s : Bytes)
    → IsChar b
    → url_decode_chars (url_encode (b ∷ s)) ≡ b ∷ url_decode_chars (url_encode s)
unfolding url_decode_chars url_encode
url_decode_chars_pair b s h =
    ground (arith, decoded_byte_lem b, hex_digit_pos (b / 16), hex_digit_pos (b % 16))

-- Decoding an encoded string without NUL gives the string back.
url_decode-url_encode : (s : Bytes) → All IsChar s → url_decode (url_encode s) ≡ s
unfolding url_decode
url_decode-url_encode [] h = unfold url_encode in refl
url_decode-url_encode (b ∷ s) h =
    rw (url_decode_chars_pair b s h.0) (ground (arith, url_decode-url_encode s h.1))
