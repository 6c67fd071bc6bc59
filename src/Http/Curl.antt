-- ===== src/Http/Curl.antt =====
-- One transfer over libcurl, in src/http_client_curl.cpp: the write functions, `must_retry` and
-- `SynchronousHTTPClient::execute_synchronous`. What libcurl does is a parameter.
use ravl.Prelude.{
  ℕ, zero, suc, ◌+◌, ◌-◌, ◌*◌, Bool, true, false, not, ◌&&◌, ◌||◌, List, [], ◌∷◌, ◌++◌, Option,
  none, some, Bytes, codes, length, take, drop, leb, ltb, ◌^◌, ◌%◌, ◌==◌, if◌then◌else◌,
}
use ravl.Result.{Result, ok, err, undefined, formatted, length_error, ◌>>=◌}
use ravl.Util.Cursor.{max_size}
use ravl.Util.Hex.{is_digit}
use ravl.Http.Message.{HttpRequest, HttpResponse, no_response, emplace_header, get_header_string}

-- A buffer that libcurl hands to `header_write_fun`: its bytes, and what lies in memory behind it.
pub record HeaderBuffer : Type 0 where
  pub line : Bytes
  pub behind : Bytes

-- The outcome of `curl_easy_perform`, with the calls of the write functions that it makes.
pub data Transfer : Type 0 where
  failed : ℕ → Transfer
  transferred : (status : ℕ) → List HeaderBuffer → List Bytes → Transfer

unfoldable pub body_write_fun : HttpResponse → Bytes → HttpResponse
body_write_fun r chunk = record r { body = r.body ++ chunk }

-- `strchr(buffer, ':')` as an offset; it stops at a NUL.
unfoldable pub find_colon : Bytes → Option ℕ
find_colon [] = none
find_colon (c ∷ s) =
    let rest = find_colon s in
    if c == b':'
    then some 0
    else if c == 0
    then none
    else elim rest [ none ↦ none | some k ↦ some (k + 1) ]

-- The value starts two bytes behind the colon and has `real_size - (colon - buffer) - 1` bytes. If
-- the colon lies behind the line, this `size_t` wraps around, and `std::string` throws; otherwise the
-- last byte of the value is the one behind the line.
unfoldable pub header_write_fun : HttpResponse → HeaderBuffer → Result HttpResponse
unfolding find_colon emplace_header
header_write_fun r b =
    let memory = b.line ++ b.behind in
    elim (find_colon memory) [
      | none ↦ ok r
      | some k ↦
          let size = (length b.line + 2 ^ 64 - k - 1) % 2 ^ 64 in
          if ltb max_size size
          then err length_error
          else if ltb (length memory) (k + 2 + size)
          then undefined
          else ok (record r {
            headers = emplace_header r.headers (take k memory) (take size (drop (k + 2) memory));
          })
    ]

unfoldable pub write_headers : HttpResponse → List HeaderBuffer → Result HttpResponse
unfolding header_write_fun
write_headers r [] = ok r
write_headers r (b ∷ bs) = do r' ← header_write_fun r b; write_headers r' bs

unfoldable pub write_body : HttpResponse → List Bytes → HttpResponse
unfolding body_write_fun
write_body r [] = r
write_body r (c ∷ cs) = write_body (body_write_fun r c) cs

-- The digits that `atol` reads, without white space and sign before them: its value is 0 exactly
-- if theirs is.
unfoldable pub atol_digits : ℕ → Bytes → ℕ
unfolding is_digit
atol_digits n [] = n
atol_digits n (c ∷ s) = if is_digit c then atol_digits (n * 10 + (c - b'0')) s else n

unfoldable pub atol : Bytes → ℕ
unfolding atol_digits
atol [] = 0
atol (c ∷ s) =
    let rest = atol s in
    if c == b' ' || (leb 9 c && leb c 13)
    then rest
    else if c == b'+' || c == b'-'
    then atol_digits 0 s
    else atol_digits 0 (c ∷ s)

abbrev pub retry_after : Bytes
retry_after = codes "Retry-After"

-- The header's number is used only if it can be read and is not 0. (`CURLINFO_RETRY_AFTER` is an
-- enumerator, so `#ifdef` takes the branch that reads the header.)
unfoldable pub wants_retry : HttpResponse → Bool
unfolding atol get_header_string
wants_retry r = elim (get_header_string r retry_after false) [
  | ok v ↦ not (atol v == 0)
  | err e ↦ false
  | undefined ↦ false
]

-- `must_retry`: the answer, and the response, which is cleared before the next attempt.
unfoldable pub must_retry : HttpResponse → Bool × HttpResponse
unfolding wants_retry
must_retry r =
    if r.status == 429
    then (if wants_retry r then (true, no_response) else (false, r))
    else (false, r)

-- One attempt, on the response that the previous one left.
unfoldable pub receive : HttpResponse → ℕ → List HeaderBuffer → List Bytes → Result HttpResponse
unfolding write_headers write_body
receive r status headers chunks = do
  r' ← write_headers r headers
  ok (record (write_body r' chunks) { status = status })

module _ (perform : ℕ → HttpRequest → Transfer) where
  -- `while (max_attempts > 0)` with `k` attempts left; `n` counts those made.
  unfoldable pub execute_loop : ℕ → ℕ → ℕ → HttpRequest → HttpResponse → Result HttpResponse
  execute_loop max_attempts_in zero n request response = err (
      formatted "maxmimum number ({}) of URL request retries exceeded for {}"
        (max_attempts_in ∷ []))
  execute_loop max_attempts_in (suc k) n request response = elim (perform n request) [
    | failed code ↦ err (formatted "curl error: {}" (code ∷ []))
    | transferred status headers chunks ↦ receive response status headers chunks >>= (λ received.
        let (again, r) = must_retry received in
        elim again [ true ↦ execute_loop max_attempts_in k (n + 1) request r | false ↦ ok r ])
  ]

  -- `SynchronousHTTPClient::execute_synchronous`
  unfoldable pub execute_synchronous : ℕ → HttpRequest → Result HttpResponse
  unfolding execute_loop must_retry receive
  execute_synchronous max_attempts request =
      execute_loop max_attempts max_attempts 0 request no_response
