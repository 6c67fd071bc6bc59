-- ===== src/Util/Url.antt =====
-- `url_decode` and `from_hex(char)` of include/ravl/util.h, and `url_decode` of
-- include/ravl/http_client.h.
pub mod Laws
use Prim.Native.Nat.{bit_or}
use ravl.Prelude.{
  ℕ, ◌+◌, ◌-◌, ◌*◌, ◌%◌, Bool, ◌&&◌, ◌||◌, List, [], ◌∷◌, Bytes, not, ◌==◌, if◌then◌else◌,
}
use ravl.Util.Hex.{is_digit, to_lower}

-- `from_hex(ch)`: a `char`, as the byte of its two's complement.
unfoldable pub from_hex_char : ℕ → ℕ
unfolding is_digit to_lower
from_hex_char ch = if is_digit ch then ch - b'0' else (to_lower ch + 256 - b'a' + 10) % 256

-- `from_hex(pstr[1]) << 4 | from_hex(pstr[2])`, stored as a `char`
unfoldable pub decode_pair : ℕ → ℕ → ℕ
unfolding from_hex_char
decode_pair d e = bit_or (from_hex_char d * 16 % 256) (from_hex_char e)

-- The two branches that store one byte for one character.
abbrev pub decode_char : ℕ → ℕ
decode_char c = if c == b'+' then b' ' else c

-- The loop over `pstr` up to the NUL: a `%` with two characters behind it stands for one byte, one
-- without is dropped, and `+` is a space.
unfoldable pub url_decode_chars : Bytes → Bytes
url_decode_chars [] = []
url_decode_chars (c ∷ []) = if c == 0 || c == b'%' then [] else decode_char c ∷ []
url_decode_chars (c ∷ d ∷ []) =
    let rest = url_decode_chars (d ∷ []) in
    if c == 0 then [] else if c == b'%' then rest else decode_char c ∷ rest
url_decode_chars (c ∷ d ∷ e ∷ s) =
    let rest = url_decode_chars (d ∷ e ∷ s) in
    let behind = url_decode_chars s in
    if c == 0
    then []
    else if c == b'%'
    then (if not (d == 0) && not (e == 0) then decode_pair d e ∷ behind else rest)
    else decode_char c ∷ rest

-- `strlen(decoded)` ends the result at its first NUL.
unfoldable pub until_nul : Bytes → Bytes
until_nul [] = []
until_nul (c ∷ s) = if c == 0 then [] else c ∷ until_nul s

unfoldable pub url_decode : Bytes → Bytes
unfolding url_decode_chars until_nul
url_decode s = until_nul (url_decode_chars s)
