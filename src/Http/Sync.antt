-- ===== src/Http/Sync.antt =====
-- `SynchronousHTTPClient` of src/http_client.cpp: `submit`, `is_complete` and `erase`.
pub mod Submit
pub mod Reuse
use ravl.Prelude.{
  ℕ, zero, suc, ◌+◌, Bool, true, List, [], ◌∷◌, Option, none, some, length, set, replicate, ltb,
  ◌==◌, if◌then◌else◌,
}
use ravl.Result.{Result, ok, err, undefined, formatted, bad_alloc, deref}
use ravl.Exec.{Exec, pure, lift, throw, ◌>>=◌, ◌>>◌}
use ravl.IdMap.{IdMap, find, size, erase, assign, emplace}
use ravl.Http.Message.{HttpRequest, HttpResponse, HttpRequests, HttpResponses, no_response}

-- `world` is what the callback can change.
pub record SyncClient (W : Type 0) : Type 0 where
  pub request_sets : IdMap HttpRequests
  pub response_sets : IdMap HttpResponses
  pub world : W

abbrev pub new_client : {W : Type 0} → W → SyncClient W
new_client w = record { request_sets = []; response_sets = []; world = w }

-- `execute` is `execute_synchronous` with the client's settings.
module _ {W : Type 0} (execute : HttpRequest → Result HttpResponse) where
  -- `response_sets[id][i] = response;`, which stores past the end if `i` is not an index.
  unfoldable pub store_response : ℕ → ℕ → HttpResponse → Exec (SyncClient W) (Unit {0})
  store_response id i response c = elim (find c.response_sets id) [
    | none ↦ (undefined, c)
    | some rs ↦
        if ltb i (length rs)
        then (ok tt, record c { response_sets = assign c.response_sets id (set rs i response) })
        else (undefined, c)
  ]

  -- The loop, from request `i` on.
  unfoldable pub run_requests : ℕ → ℕ → HttpRequests → Exec (SyncClient W) (Unit {0})
  run_requests id i [] = pure tt
  run_requests id i (request ∷ rest) = do
    response ← lift (execute request)
    store_response id i response
    if response.status == 200
        then run_requests id (i + 1) rest
        else throw (formatted "unexpected HTTP status {}" (response.status ∷ []))

  -- `try_emplace`d sets: the request set stays as it is if the identifier is in use.
  unfoldable pub open_set : HttpRequests → Exec (SyncClient W) ℕ
  open_set rs c =
      let id = size c.request_sets in
      let c' = record c { request_sets = emplace c.request_sets id rs } in
      elim (find c.response_sets id) [
        | some old ↦ (err bad_alloc, c')
        | none ↦ (
          ok id,
          record c' {
            response_sets = emplace c.response_sets id (replicate (length rs) no_response);
          },
        )
      ]

  -- `r.swap(rit->second); callback(std::move(r)); response_sets.erase(rit);`
  unfoldable pub deliver : ℕ → (HttpResponses → Exec W (Unit {0})) → Exec (SyncClient W) (Unit {0})
  deliver id callback c = elim (find c.response_sets id) [
    | none ↦ (undefined, c)
    | some rs ↦
        let (r, w) = callback rs c.world in
        let c' = record c { response_sets = assign c.response_sets id []; world = w } in
        elim r [
          | ok _ ↦ (ok tt, record c' { response_sets = erase c'.response_sets id })
          | err e ↦ (err e, c')
          | undefined ↦ (undefined, c')
        ]
  ]

  unfoldable pub submit : HttpRequests → (HttpResponses → Exec W (Unit {0})) → Exec (SyncClient W) ℕ
  submit rs callback = do
    id ← open_set rs
    requests ← (λ c. (deref (find c.request_sets id), c))
    run_requests id 0 requests
    deliver id callback
    pure id

unfoldable pub is_complete : {W : Type 0} → SyncClient W → ℕ → Bool
is_complete c id = true

unfoldable pub erase_set : {W : Type 0} → SyncClient W → ℕ → SyncClient W
erase_set c id = record c {
  request_sets = erase c.request_sets id;
  response_sets = erase c.response_sets id;
}
