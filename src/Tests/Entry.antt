-- ===== src/Tests/Entry.antt =====
-- The synchronous entry point at a concrete input.
use ravl.Prelude.{ℕ, ◌≡◌, refl, [], ◌∷◌, Option, none, some}
use ravl.Result.{Result, ok}
use ravl.Options.{default_options}
use ravl.IdMap.{find, size, assign, emplace, erase}
use ravl.Http.Message.{HttpRequest, HttpResponse, HttpRequests, HttpResponses, get_request}
use ravl.Http.Sync.{submit, open_set, store_response, run_requests, deliver}
use ravl.Tracker.State.{Attestation, answered, Client, new_tracker}
use ravl.Tracker.Api.{result}
use ravl.Entry.{fetch, verify_synchronous}
use ravl.Entry.Same.{verify_synchronous-tracked}

abbrev page : HttpRequests
page = get_request (7 ∷ []) ∷ []

abbrev echo : HttpRequest → Result HttpResponse
echo q = ok (record { status = 200; headers = []; body = q.url })

abbrev pages : HttpResponses
pages = record { status = 200; headers = []; body = 7 ∷ [] } ∷ []

abbrev counted : Option HttpResponses → ℕ
counted none = 0
counted (some []) = 0
counted (some (r ∷ rs)) = 1

abbrev counting : Attestation ℕ
counting = record {
  prepare_endorsements = λ o. ok (some page);
  verify = λ o rs. ok (some (counted rs));
}

abbrev client : Client
client rs = answered 0 pages

verify_synchronous-tracked_example :
    result
      (ravl.Tracker.Api.submit default_options (some counting) (some client) none new_tracker).1
      0
    ≡ ok 1
unfolding verify_synchronous fetch submit open_set store_response run_requests deliver find size
    assign emplace erase
verify_synchronous-tracked_example =
    verify_synchronous-tracked echo counting default_options page pages refl (refl, refl, tt) client
      0 new_tracker 1 refl refl refl refl
