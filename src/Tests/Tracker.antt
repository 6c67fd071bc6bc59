-- ===== src/Tests/Tracker.antt =====
-- Concrete runs of the request tracker, and its theorems at concrete inputs.
use ravl.Prelude.{ℕ, ◌≡◌, ◌≢◌, ◌⊎◌, true, refl, [], ◌∷◌, Option, none, some}
use ravl.Result.{ok, undefined}
use ravl.Exec.{Exec}
use ravl.IdMap.{find, emplace, erase, assign}
use ravl.Options.{default_options}
use ravl.Http.Message.{HttpRequests, HttpResponses, get_request, no_response}
use ravl.Tracker.State.{Attestation, answered, Client, Callback, Request, Tracker, new_tracker}
use ravl.Tracker.Advance.{
  advance, advance_at, advance_step, switch, prepare_endorsements, submitted_set,
  set_request_set_id, on_responses, store_responses,
}
use ravl.Tracker.Api.{submit, result, new_request, erase_request, completed}
use ravl.Tracker.Outcome.{outcome}
use ravl.Tracker.Runs.{Runs}
use ravl.Tracker.Refines.{advance-outcome}
use ravl.Tracker.Order.{Follows}
use ravl.Tracker.Forward.{advance-Follows}
use ravl.Tracker.Events.{Reach, start, next, submits}
use ravl.Tracker.Completes.{NeverPending, submit_completes}
use ravl.Tracker.Sound.{result_verified, erase_releases_nothing}

-- An attestation that asks for one page and claims how many responses it got.
abbrev page : HttpRequests
page = get_request (7 ∷ []) ∷ []

abbrev counted : Option HttpResponses → ℕ
counted none = 0
counted (some []) = 0
counted (some (r ∷ rs)) = 1

abbrev counting : Attestation ℕ
counting = record {
  prepare_endorsements = λ o. ok (some page);
  verify = λ o rs. ok (some (counted rs));
}

abbrev sync_client : Client
sync_client rs = answered 4 (no_response ∷ [])

abbrev quiet : Callback
quiet id = ok tt

abbrev one_request : Exec (Tracker ℕ) ℕ
one_request = submit default_options (some counting) (some sync_client) (some quiet)

abbrev after_one : Tracker ℕ
after_one = (one_request new_tracker).1

one_request_defined : (one_request new_tracker).0 ≢ undefined
unfolding submit advance advance_at advance_step switch prepare_endorsements submitted_set
    set_request_set_id on_responses store_responses find emplace assign erase
one_request_defined e = cc

after_one-result : result after_one 0 ≡ ok 1
unfolding result submit advance advance_at advance_step switch prepare_endorsements submitted_set
    set_request_set_id on_responses store_responses find emplace assign erase
after_one-result = refl

after_one-Reach : Reach after_one
after_one-Reach = next start (
    submits default_options (some counting) (some sync_client) (some quiet)
      (one_request_defined, refl))

result_verified_example :
    (r : Request ℕ) × (att : Attestation ℕ) × (rs : HttpResponses) × (find after_one.requests 0
      ≡ some r)
    × (r.attestation ≡ some att)
    × (att.verify r.options (some rs) ≡ ok (some 1))
result_verified_example = result_verified after_one 0 1 after_one-Reach after_one-result

erase_releases_nothing_example : (erase_request 0 after_one).released ≡ []
erase_releases_nothing_example = erase_releases_nothing after_one 0 after_one-Reach

-- The same request in a tracker of its own, before its first step.
abbrev first : Request ℕ
first = new_request default_options (some counting) (some sync_client) (some quiet)

abbrev with_first : Tracker ℕ
with_first = record new_tracker { requests = (0, first) ∷ [] }

advance-outcome_example :
    Runs 0 with_first (outcome 0 first (find with_first.http_responses 0)) (advance 0 with_first)
unfolding find
advance-outcome_example = advance-outcome 0 with_first first refl

with_first-here : find with_first.requests 0 ≡ some first
unfolding find
with_first-here = refl

with_first_defined : (advance 0 with_first).0 ≢ undefined
unfolding advance advance_at advance_step switch prepare_endorsements submitted_set
    set_request_set_id on_responses store_responses find emplace assign erase
with_first_defined e = cc

advance-Follows_example :
    (r' : Request ℕ) × ((advance 0 with_first).0 ≡ ok r'.state)
    × (find (advance 0 with_first).1.requests 0 ≡ some r')
    × Follows first r'
    × ((j : ℕ) → j ≢ 0 → find (advance 0 with_first).1.requests j ≡ find with_first.requests j)
advance-Follows_example = advance-Follows 0 with_first first with_first-here with_first_defined

sync_client-NeverPending : NeverPending sync_client
sync_client-NeverPending rqs = refl

submit_completes_example :
    (((one_request new_tracker).0 ≡ undefined)
      × (outcome 0 first (find (new_tracker {C = ℕ}).http_responses 0) ≡ none))
    ⊎ (((one_request new_tracker).0 ≡ ok 0) × (completed (one_request new_tracker).1 0 ≡ true))
unfolding find
submit_completes_example =
    submit_completes default_options (some counting) sync_client (some quiet) new_tracker refl
      sync_client-NeverPending
