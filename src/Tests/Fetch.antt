-- ===== src/Tests/Fetch.antt =====
-- The browser's client at concrete inputs.
use ravl.Prelude.{◌≡◌, refl, Bool, true, false, [], ◌∷◌, some, Bytes, codes}
use ravl.Result.{ok, err, runtime_error}
use ravl.IdMap.{find, size, assign, emplace, erase}
use ravl.Http.Message.{HttpRequests, HttpResponses, get_request}
use ravl.Http.Async.{Callback}
use ravl.Http.Fetch.{
  Fetched, FetchTracker, assign_header, assign_headers, must_retry, submit, store, finish, complete,
  call_back, is_complete,
}
use ravl.Http.Fetch.Retry.{run, complete_never_retries}

abbrev start : Bytes → Bool
start url = true

abbrev requests : HttpRequests
requests = get_request (codes "a") ∷ get_request (codes "b") ∷ []

-- The callback keeps the responses.
abbrev keep : Callback HttpResponses
keep rs w = (ok tt, rs)

abbrev empty : FetchTracker HttpResponses
empty = record { requests = []; responses = []; world = [] }

abbrev first : Fetched
first = record {
  url = codes "a";
  status = 200;
  headers = (codes "x", codes "1") ∷ (codes "x", codes "2") ∷ [];
  body = codes "A";
}

abbrev second : Fetched
second = record { url = codes "b"; status = 404; headers = []; body = codes "B" }

abbrev too_many : Fetched
too_many = record {
  url = codes "b";
  status = 429;
  headers = (codes "Retry-After", codes "1") ∷ [];
  body = [];
}

-- In the other order: the callback gets both responses, and the set is gone.
deliver_run :
    run start 0 ((1, second) ∷ (0, first) ∷ []) (submit start requests (some keep) empty).1
    ≡ record {
      requests = [];
      responses = [];
      world =
          record { status = 200; headers = (codes "x", codes "2") ∷ []; body = codes "A" }
          ∷ record { status = 404; headers = []; body = codes "B" }
          ∷ [];
    }
unfolding submit complete finish must_retry store call_back find size assign emplace erase
    assign_headers assign_header
deliver_run = refl

-- A set that was delivered is not complete any more.
gone_run :
    is_complete start 0
      (run start 0 ((1, second) ∷ (0, first) ∷ []) (submit start requests (some keep) empty).1)
    ≡ false
unfolding is_complete submit complete finish must_retry store call_back find size assign emplace
    erase assign_headers assign_header
gone_run = refl

complete_never_retries_example :
    ((submit start requests (some keep) empty).0 ≡ ok 0)
    × ((complete start 0 1 too_many
          (run start 0 ((0, first) ∷ []) (submit start requests (some keep) empty).1)).0
        ≡ err (runtime_error "missing response header"))
unfolding find size
complete_never_retries_example =
    complete_never_retries start requests (some keep) 1 (get_request (codes "b")) ((0, first) ∷ [])
      too_many empty refl refl refl refl ((λ bad. absurd cc), tt) refl
