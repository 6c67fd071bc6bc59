-- ===== src/Tests/Util.antt =====
-- Concrete runs of the byte-level helpers.
use ravl.Prelude.{◌≡◌, refl, [], ◌∷◌, codes}
use ravl.Result.{ok}
use ravl.Util.Cursor.{put}
use ravl.Util.Hex.{from_hex, from_hex_t}
use ravl.Util.Url.{url_decode, decode_pair}

put_two : put 2 0x1234 ≡ 0x12 ∷ 0x34 ∷ []
unfolding put
put_two = refl

from_hex_blank : from_hex (codes " 1") ≡ ok (1 ∷ [])
unfolding from_hex
from_hex_blank = refl

from_hex_failure : from_hex (codes "01zz") ≡ ok []
unfolding from_hex
from_hex_failure = refl

from_hex_t_little : from_hex_t 4 (codes "01000002") ≡ ok 0x02000001
unfolding from_hex_t
from_hex_t_little = refl

url_decode_mixed : url_decode (codes "a+b%2Fc%4") ≡ codes "a b/c4"
unfolding url_decode decode_pair
url_decode_mixed = refl
