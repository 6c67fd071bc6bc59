-- ===== src/Http/Message.antt =====
-- The messages of include/ravl/http_client.h.
use ravl.Prelude.{ℕ, Bool, List, [], ◌∷◌, map, Option, none, some, Bytes, bytes_eq, if◌then◌else◌}
use ravl.Result.{Result, ok, err, runtime_error}
use ravl.Util.Hex.{to_lower}
use ravl.Util.Url.{url_decode}

-- An `unordered_map` of strings: the first entry of a key counts.
abbrev pub Headers : Type 0
Headers = List (Bytes × Bytes)

pub record HttpRequest : Type 0 where
  pub url : Bytes
  pub headers : Headers
  pub body : Bytes

pub record HttpResponse : Type 0 where
  pub status : ℕ
  pub headers : Headers
  pub body : Bytes

abbrev pub HttpRequests : Type 0
HttpRequests = List HttpRequest

abbrev pub HttpResponses : Type 0
HttpResponses = List HttpResponse

-- `HTTPRequest(url)` and the default `HTTPResponse`
abbrev pub get_request : Bytes → HttpRequest
get_request url = record { url = url; headers = []; body = [] }

abbrev pub no_response : HttpResponse
no_response = record { status = 0; headers = []; body = [] }

unfoldable pub find_header : Headers → Bytes → Option Bytes
find_header [] name = none
find_header ((k, v) ∷ hs) name = if bytes_eq k name then some v else find_header hs name

-- `headers.emplace(key, value)`
unfoldable pub emplace_header : Headers → Bytes → Bytes → Headers
unfolding find_header
emplace_header hs k v = elim (find_header hs k) [ none ↦ (k, v) ∷ hs | some w ↦ hs ]

abbrev pub header_value : Option Bytes → Bool → Result Bytes
header_value none url_decoded = err (runtime_error "missing response header")
header_value (some v) url_decoded = ok (if url_decoded then url_decode v else v)

-- The name as it is given, then in lower case.
unfoldable pub get_header_data : HttpResponse → Bytes → Bool → Result Bytes
unfolding find_header to_lower
get_header_data r name url_decoded = elim (find_header r.headers name) [
  | none ↦ header_value (find_header r.headers (map to_lower name)) url_decoded
  | some v ↦ header_value (some v) url_decoded
]

unfoldable pub get_header_string : HttpResponse → Bytes → Bool → Result Bytes
unfolding get_header_data
get_header_string r name url_decoded = get_header_data r name url_decoded
