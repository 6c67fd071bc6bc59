-- ===== src/Tracker/Api.antt =====
-- The operations of `AttestationRequestTracker` in include/ravl/request_tracker_impl.h.
use ravl.Prelude.{
  ℕ, ◌+◌, ◌%◌, ◌^◌, Bool, true, false, ◌||◌, List, ◌∷◌, Option, none, some, if◌then◌else◌,
}
use ravl.Result.{Result, ok, err, runtime_error, bad_alloc}
use ravl.Exec.{Exec, pure, ◌>>=◌, ◌>>◌}
use ravl.IdMap.{find, erase, emplace}
use ravl.Options.{Options}
use ravl.Tracker.State.{RequestState, Attestation, Client, Callback, Request, Tracker}
use ravl.Tracker.Advance.{advance}

abbrev pub is_finished : RequestState → Bool
is_finished RequestState.finished = true
is_finished _ = false

abbrev pub is_error : RequestState → Bool
is_error RequestState.error = true
is_error _ = false

abbrev pub released_sets : Option Client → Option ℕ → List ℕ → List ℕ
released_sets (some client) (some set_id) released = set_id ∷ released
released_sets _ _ released = released

module _ {C : Type 0} where
  abbrev pub new_request :
      Options → Option (Attestation C) → Option Client → Option Callback → Request C
  new_request options attestation client callback = record {
    state = RequestState.submitted;
    options = options;
    attestation = attestation;
    claims = none;
    http_client = client;
    callback = callback;
    http_request_set_id = none;
  }

  -- `request_id = next_request_id++; requests.try_emplace(…)`
  unfoldable pub enter : Request C → Exec (Tracker C) ℕ
  enter r t =
      let id = t.next_request_id in
      let t' = record t { next_request_id = (id + 1) % 2 ^ 64 } in
      elim (find t.requests id) [
        | some old ↦ (err bad_alloc, t')
        | none ↦ (ok id, record t' { requests = emplace t.requests id r })
      ]

  unfoldable pub submit :
      Options → Option (Attestation C) → Option Client → Option Callback → Exec (Tracker C) ℕ
  unfolding enter
  submit options attestation client callback = do
    id ← enter (new_request options attestation client callback)
    advance id
    pure id

  unfoldable pub state : Tracker C → ℕ → RequestState
  state t id = elim (find t.requests id) [ none ↦ RequestState.error | some r ↦ r.state ]

  unfoldable pub finished : Tracker C → ℕ → Bool
  unfolding state
  finished t id = is_finished (state t id)

  unfoldable pub completed : Tracker C → ℕ → Bool
  unfolding state
  completed t id = is_finished (state t id) || is_error (state t id)

  abbrev pub result_of : Option (Request C) → Result C
  result_of none = err (runtime_error "no such attestation verification request")
  result_of (some r) =
      if is_finished r.state
      then elim r.claims [ none ↦ err (runtime_error "claim extraction failed") | some c ↦ ok c ]
      else err (runtime_error "attestation verification request not finished")

  unfoldable pub result : Tracker C → ℕ → Result C
  result t id = result_of (find t.requests id)

  -- The client that is told to erase the request set is the tracker's own, `this->http_client`.
  unfoldable pub erase_request : ℕ → Tracker C → Tracker C
  erase_request id t = elim (find t.requests id) [
    | none ↦ t
    | some r ↦ record t {
      requests = erase t.requests id;
      released = released_sets t.http_client r.http_request_set_id t.released;
    }
  ]
