-- ===== src/Entry/Same.antt =====
-- `verify_synchronous` and the request tracker come to the same.
use ravl.Prelude.{ℕ, ◌+◌, ◌%◌, ◌^◌, ◌≡◌, refl, none, some, arith}
use ravl.Result.{Result, ok}
use ravl.Options.{Options}
use ravl.IdMap.{find, size, emplace, find-emplace, find-assign_self}
use ravl.Http.Message.{HttpRequest, HttpResponse, HttpRequests, HttpResponses}
use ravl.Http.Sync.{new_client}
use ravl.Http.Sync.Submit.{Answers}
use ravl.Http.Sync.Reuse.{submit_fresh}
use ravl.Tracker.State.{finished, Attestation, answered, Client, Request, Tracker}
use ravl.Tracker.Api.{new_request, enter, result}
use ravl.Tracker.Outcome.{outcome, accept, settle}
use ravl.Tracker.Refines.{advance-outcome}
use ravl.Entry.{keep_responses, fetch, verify_synchronous}

module _ {C : Type 0} (execute : HttpRequest → Result HttpResponse) (att : Attestation C)
    (options : Options) (requests : HttpRequests) (rs : HttpResponses)
    (prepared : att.prepare_endorsements options ≡ ok (some requests))
    (answers : Answers execute requests rs) where
  -- If every request for endorsements is answered by status 200, the attestation is verified with
  -- the answers in their order, and the outcome is what `verify` gives.
  verify_synchronous-submit : verify_synchronous execute att options ≡ att.verify options (some rs)
  unfolding verify_synchronous fetch find size
  verify_synchronous-submit =
      let (returned, world, _) =
        submit_fresh execute requests keep_responses (new_client none) rs (some rs) refl refl
          answers refl in
      ground (arith, prepared, returned, world)

  -- Claims that `verify_synchronous` returns are also the result of the tracker: submitted to it on an
  -- unused identifier, with a client that answers the same requests by the same responses and
  -- without a callback, the request's result is the same claims.
  pub verify_synchronous-tracked :
      (client : Client) (set_id : ℕ) (t : Tracker C) (c : C)
      → client requests ≡ answered set_id rs
      → find t.requests t.next_request_id ≡ none
      → find t.http_responses t.next_request_id ≡ none
      → verify_synchronous execute att options ≡ ok (some c)
      → result (ravl.Tracker.Api.submit options (some att) (some client) none t).1 t.next_request_id
        ≡ ok c
  unfolding ravl.Tracker.Api.submit enter result outcome accept settle
  verify_synchronous-tracked client set_id t c is_answered unused no_responses verified =
      let id = t.next_request_id in
      let r : Request C = new_request options (some att) (some client) none in
      let t₁ : Tracker C = record t {
        next_request_id = (id + 1) % 2 ^ 64;
        requests = emplace t.requests id r;
      } in
      let here : find t₁.requests id ≡ some r =
        ground (arith, find-emplace t.requests id r unused id) in
      let runs = advance-outcome id t₁ r here in
      let done : Request C = record r {
        state = finished;
        claims = some c;
        http_request_set_id = some set_id;
      } in
      let is_verified : att.verify options (some rs) ≡ ok (some c) =
        ground (arith, verify_synchronous-submit, verified) in
      let came : outcome id r (find t₁.http_responses id) ≡ some done =
        ground (arith, no_responses, prepared, is_answered, is_verified) in
      ground (
        arith,
        unused,
        runs.result,
        came,
        runs.requests done came,
        find-assign_self t₁.requests id done,
      )
