-- ===== src/Tests/Http.antt =====
-- Concrete runs of the HTTP clients, and their theorems at concrete inputs.
use ravl.Prelude.{ℕ, ◌≡◌, refl, [], ◌∷◌, none}
use ravl.Result.{Result, ok}
use ravl.Exec.{Exec, modify}
use ravl.IdMap.{find, size, emplace, erase, assign}
use ravl.Http.Message.{HttpRequest, HttpResponse, HttpRequests, HttpResponses, get_request}
use ravl.Http.Sync.{
  SyncClient, new_client, submit, erase_set, open_set, store_response, run_requests, deliver,
}
use ravl.Http.Sync.Reuse.{submit_fresh, submit_reuses}

-- A server that echoes the URL.
abbrev echo : HttpRequest → Result HttpResponse
echo q = ok (record { status = 200; headers = []; body = q.url })

abbrev remember : HttpResponses → Exec HttpResponses (Unit {0})
remember rs = modify (λ w. rs)

abbrev ask : ℕ → HttpRequests
ask n = get_request (n ∷ []) ∷ []

abbrev reply : ℕ → HttpResponses
reply n = record { status = 200; headers = []; body = n ∷ [] } ∷ []

abbrev idle : SyncClient HttpResponses
idle = new_client []

submit_fresh_example :
    ((submit echo (ask 7) remember idle).0 ≡ ok (size idle.request_sets))
    × ((submit echo (ask 7) remember idle).1.world ≡ reply 7)
    × (find (submit echo (ask 7) remember idle).1.response_sets (size idle.request_sets) ≡ none)
unfolding find size
submit_fresh_example =
    submit_fresh echo (ask 7) remember idle (reply 7) (reply 7) refl refl (refl, refl, tt) refl

-- Two submissions, and the first set is erased: the next identifier is that of the second set.
abbrev after_erase : SyncClient HttpResponses
after_erase = erase_set (submit echo (ask 2) remember (submit echo (ask 1) remember idle).1).1 0

submit_reuses_example :
    ((submit echo (ask 3) remember after_erase).0 ≡ ok (size after_erase.request_sets))
    × ((submit echo (ask 3) remember after_erase).1.world ≡ reply 2)
    × (find
          (submit echo (ask 3) remember after_erase).1.response_sets
          (size after_erase.request_sets)
        ≡ none)
unfolding find size erase_set submit open_set store_response run_requests deliver assign emplace
    erase
submit_reuses_example =
    submit_reuses echo (ask 3) remember after_erase (ask 2) (reply 2) (reply 2) refl refl refl
      (refl, refl, tt) refl
