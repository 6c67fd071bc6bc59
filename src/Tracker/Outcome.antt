-- ===== src/Tracker/Outcome.antt =====
-- What one call of `advance` makes of a request, as a function of the request and of the responses
-- that are kept for it. `none` stands for undefined behaviour of the objects that are called: a null
-- HTTP client, or an attestation or callback that runs into it.
use ravl.Prelude.{ℕ, [], Option, none, some}
use ravl.Result.{Result, ok, err, undefined}
use ravl.Http.Message.{HttpRequests, HttpResponses}
use ravl.Tracker.State.{
  RequestState, submitted, waiting_for_endorsements, have_endorsements, finished, error,
  Attestation, Submission, refused, answered, pending, Client, Callback, Request,
}

abbrev pub kept : Option HttpResponses → HttpResponses
kept none = []
kept (some rs) = rs

module _ {C : Type 0} where
  abbrev pub fail : Request C → Request C
  fail r = record r { state = error }

  abbrev pub notified : Request C → Result (Unit {0}) → Option (Request C)
  notified r (ok _) = some r
  notified r (err e) = some (fail r)
  notified r undefined = none

  -- The claims are stored before the callback is called.
  abbrev pub notify : ℕ → Request C → Option Callback → Option (Request C)
  notify id r none = some r
  notify id r (some callback) = notified r (callback id)

  abbrev pub judge : ℕ → Request C → Result (Option C) → Option (Request C)
  judge id r (ok c) = notify id (record r { claims = c; state = finished }) r.callback
  judge id r (err e) = some (fail r)
  judge id r undefined = none

  -- In the state `have_endorsements`.
  abbrev pub settle_with :
      ℕ → Request C → HttpResponses → Option (Attestation C) → Option (Request C)
  settle_with id r rs none = some (fail r)
  settle_with id r rs (some att) = judge id r (att.verify r.options (some rs))

  unfoldable pub settle : ℕ → Request C → Option HttpResponses → Option (Request C)
  settle id r o = settle_with id r (kept o) r.attestation

  abbrev pub with_set : ℕ → Option (Request C) → Option (Request C)
  with_set set_id none = none
  with_set set_id (some r) = some (record r { http_request_set_id = some set_id })

  -- The client's answer. The synchronous one has advanced the request twice by then.
  abbrev pub sent_with : ℕ → Request C → Option HttpResponses → Submission → Option (Request C)
  sent_with id r o (refused e) = some (fail r)
  sent_with id r o (pending set_id) =
      some (record r { state = waiting_for_endorsements; http_request_set_id = some set_id })
  sent_with id r none (answered set_id rs) =
      with_set set_id (settle id (record r { state = have_endorsements }) (some rs))
  sent_with id r (some old) (answered set_id rs) = some (fail r)

  abbrev pub fetched_with :
      ℕ → Request C → Option HttpResponses → HttpRequests → Option Client → Option (Request C)
  fetched_with id r o rqs none = none
  fetched_with id r o rqs (some client) = sent_with id r o (client rqs)

  abbrev pub prepared_with :
      ℕ → Request C → Option HttpResponses → Result (Option HttpRequests) → Option (Request C)
  prepared_with id r o (ok none) = settle id (record r { state = have_endorsements }) o
  prepared_with id r o (ok (some rqs)) = fetched_with id r o rqs r.http_client
  prepared_with id r o (err e) = some (fail r)
  prepared_with id r o undefined = none

  abbrev pub accept_with :
      ℕ → Request C → Option HttpResponses → Option (Attestation C) → Option (Request C)
  accept_with id r o none = some (fail r)
  accept_with id r o (some att) = prepared_with id r o (att.prepare_endorsements r.options)

  -- In the state `submitted`.
  unfoldable pub accept : ℕ → Request C → Option HttpResponses → Option (Request C)
  unfolding settle
  accept id r o = accept_with id r o r.attestation

  abbrev pub outcome_in : RequestState → ℕ → Request C → Option HttpResponses → Option (Request C)
  outcome_in submitted id r o = accept id r o
  outcome_in waiting_for_endorsements id r o = some (record r { state = have_endorsements })
  outcome_in have_endorsements id r o = settle id r o
  outcome_in finished id r o = some r
  outcome_in error id r o = some (fail r)

  unfoldable pub outcome : ℕ → Request C → Option HttpResponses → Option (Request C)
  unfolding accept
  outcome id r o = outcome_in r.state id r o
