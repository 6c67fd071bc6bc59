-- ===== src/Http/Fetch.antt =====
-- `FetchTracker` of wasm/http_client_fetch.cpp, the asynchronous client of a browser. The calls of
-- `complete` are made by the browser, one after the other and in any order.
pub mod Retry
use ravl.Prelude.{
  ℕ, ◌-◌, Bool, true, false, List, [], ◌∷◌, ◌++◌, Option, none, some, Bytes, bytes_eq, length,
  get_elem?, set, take, replicate, map, ltb, ◌==◌, if◌then◌else◌,
}
use ravl.Result.{Result, ok, err, undefined, runtime_error, out_of_range, bad_alloc, ◌>>=◌}
use ravl.Exec.{Exec}
use ravl.IdMap.{IdMap, find, size, erase, assign, emplace}
use ravl.Http.Message.{
  Headers, HttpRequest, HttpResponse, HttpRequests, HttpResponses, no_response, get_header_data,
}
use ravl.Http.Curl.{retry_after}
use ravl.Http.Async.{Callback}

-- A fetch that has ended.
pub record Fetched : Type 0 where
  pub url : Bytes
  pub status : ℕ
  pub headers : Headers
  pub body : Bytes

-- `fetches` are pointers, of which only null is told apart.
pub record TrackedRequests (W : Type 0) : Type 0 where
  pub requests : HttpRequests
  pub fetches : List Bool
  pub callback : Option (Callback W)

pub record FetchTracker (W : Type 0) : Type 0 where
  pub requests : IdMap (TrackedRequests W)
  pub responses : IdMap HttpResponses
  pub world : W

-- `headers[key] = value`
unfoldable pub assign_header : Headers → Bytes → Bytes → Headers
assign_header [] key value = (key, value) ∷ []
assign_header ((k, v) ∷ hs) key value =
    if bytes_eq k key then (k, value) ∷ hs else (k, v) ∷ assign_header hs key value

unfoldable pub assign_headers : Headers → Headers → Headers
unfolding assign_header
assign_headers hs [] = hs
assign_headers hs ((k, v) ∷ rest) = assign_headers (assign_header hs k v) rest

-- Whether the fetch is made again, and the response, which is then cleared; the header is looked for
-- in the response that is stored, and throws if it is not there.
unfoldable pub must_retry : Fetched → HttpResponse → Result (Bool × HttpResponse)
must_retry fetch response =
    if fetch.status == 429
    then (get_header_data response retry_after false >>= (λ q. ok (true, no_response)))
    else ok (false, response)

abbrev pub is_none_pending : List Bool → Bool
is_none_pending [] = true
is_none_pending (fetch ∷ fetches) = if fetch then false else is_none_pending fetches

abbrev pub resize : HttpResponses → ℕ → HttpResponses
resize rs n = if length rs == n then rs else take n rs ++ replicate (n - length rs) no_response

-- `start` is whether `emscripten_fetch` returns a fetch for a URL.
module _ (start : Bytes → Bool) {W : Type 0} where
  unfoldable pub submit : HttpRequests → Option (Callback W) → Exec (FetchTracker W) ℕ
  submit rs callback c =
      let id = size c.requests in
      let empty : TrackedRequests W = record { requests = rs; fetches = []; callback = none } in
      elim (find c.requests id) [
        | some old ↦ (err bad_alloc, c)
        | none ↦ elim (find c.responses id) [
          | some old ↦ (err bad_alloc, record c { requests = emplace c.requests id empty })
          | none ↦ (
            ok id,
            record c {
              requests = assign (emplace c.requests id empty) id (record {
                requests = rs;
                fetches = map (λ r. start r.url) rs;
                callback = callback;
              });
              responses = emplace c.responses id (replicate (length rs) no_response);
            },
          )
        ]
      ]

  -- The callback gets the responses; then both are gone.
  unfoldable pub call_back : ℕ → Callback W → HttpResponses → Exec (FetchTracker W) (Unit {0})
  call_back id callback rs c =
      let (r, w) = callback rs c.world in
      let c' = record c { responses = assign c.responses id []; world = w } in
      elim r [
        | ok _ ↦ (
          ok tt,
          record c' { requests = erase c'.requests id; responses = erase c'.responses id },
        )
        | err e ↦ (err e, c')
        | undefined ↦ (undefined, c')
      ]

  -- The response and the fetch are stored, and the set is delivered if none is pending.
  unfoldable pub store : ℕ → TrackedRequests W → HttpResponses → Exec (FetchTracker W) (Unit {0})
  store id t rs c =
      let c' : FetchTracker W = record c {
        requests = assign c.requests id t;
        responses = assign c.responses id rs;
      } in
      elim t.callback [
        | none ↦ (ok tt, c')
        | some callback ↦
            if is_none_pending t.fetches then call_back id callback rs c' else (ok tt, c')
      ]

  unfoldable pub finish :
      ℕ
      → ℕ
      → Fetched
      → TrackedRequests W
      → HttpResponses
      → HttpResponse
      → Exec (FetchTracker W) (Unit {0})
  finish id i fetch t rs response c = elim (must_retry fetch response) [
    | err e ↦ (err e, c)
    | undefined ↦ (undefined, c)
    | ok (again, r) ↦
        if ltb i (length t.fetches)
        then (if again
            then store id (record t { fetches = set t.fetches i (start fetch.url) }) (set rs i r) c
            else store id (record t { fetches = set t.fetches i false })
                (set rs i (record {
                  status = fetch.status;
                  headers = assign_headers r.headers fetch.headers;
                  body = fetch.body;
                }))
                c)
        else (undefined, c)
  ]

  unfoldable pub complete : ℕ → ℕ → Fetched → Exec (FetchTracker W) (Unit {0})
  complete id i fetch c = elim (find c.requests id) [
    | none ↦ (ok tt, c)
    | some t ↦
        if ltb i (length t.requests)
        then (elim (find c.responses id) [
          | none ↦ (err (runtime_error "response set not found"), c)
          | some old ↦
              let rs = resize old (length t.requests) in
              let c' : FetchTracker W = record c { responses = assign c.responses id rs } in
              elim (get_elem? rs i) [
                | none ↦ (err (runtime_error "request index too large"), c')
                | some response ↦ finish id i fetch t rs response c'
              ]
        ])
        else (err out_of_range, c)
  ]

  unfoldable pub is_complete : ℕ → FetchTracker W → Bool
  is_complete id c = elim (find c.requests id) [ none ↦ false | some t ↦ is_none_pending t.fetches ]

  unfoldable pub erase_set : ℕ → FetchTracker W → FetchTracker W
  erase_set id c = record c { requests = erase c.requests id; responses = erase c.responses id }
