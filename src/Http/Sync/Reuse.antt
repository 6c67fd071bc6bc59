-- ===== src/Http/Sync/Reuse.antt =====
-- Which requests `submit` makes, by whether its identifier, the number of request sets, is in use.
-- A set that is erased leaves the number of sets behind, and the next submission may get an
-- identifier that is taken.
use ravl.Prelude.{ℕ, ◌≡◌, refl, none, some, length, arith}
use ravl.Result.{Result, ok}
use ravl.Exec.{Exec}
use ravl.IdMap.{find, size, find-emplace, emplace_old}
use ravl.Http.Message.{HttpRequest, HttpResponse, HttpRequests, HttpResponses}
use ravl.Http.Sync.{SyncClient, submit}
use ravl.Http.Sync.Submit.{Answers, submit_runs}

module _ {W : Type 0} (execute : HttpRequest → Result HttpResponse) (sent : HttpRequests)
    (callback : HttpResponses → Exec W (Unit {0})) (c : SyncClient W) where
  abbrev next_id : ℕ
  next_id = size c.request_sets

  -- On an unused identifier, with every request answered by status 200 and a callback that returns:
  -- the callback gets the answers to the requests that were sent, in their order, the call returns
  -- the identifier, and no responses stay behind.
  pub submit_fresh :
      (rs : HttpResponses) (w : W)
      → find c.request_sets (size c.request_sets) ≡ none
      → find c.response_sets (size c.request_sets) ≡ none
      → Answers execute sent rs
      → callback rs c.world ≡ (ok tt, w)
      → ((submit execute sent callback c).0 ≡ ok (size c.request_sets))
        × ((submit execute sent callback c).1.world ≡ w)
        × (find (submit execute sent callback c).1.response_sets (size c.request_sets) ≡ none)
  submit_fresh rs w unused free answered returns =
      submit_runs execute sent sent rs callback c free answered refl w returns
        (ground (arith, find-emplace c.request_sets next_id sent unused next_id))

  -- On an identifier whose request set is still stored, of the same length: the requests of that
  -- older set are made again, and the callback gets the answers to them and not to those sent.
  pub submit_reuses :
      (old : HttpRequests) (rs : HttpResponses) (w : W)
      → find c.request_sets (size c.request_sets) ≡ some old
      → find c.response_sets (size c.request_sets) ≡ none
      → length sent ≡ length old
      → Answers execute old rs
      → callback rs c.world ≡ (ok tt, w)
      → ((submit execute sent callback c).0 ≡ ok (size c.request_sets))
        × ((submit execute sent callback c).1.world ≡ w)
        × (find (submit execute sent callback c).1.response_sets (size c.request_sets) ≡ none)
  submit_reuses old rs w used free same answered returns =
      submit_runs execute sent old rs callback c free answered same w returns
        (rw (emplace_old c.request_sets next_id sent old used) used)
