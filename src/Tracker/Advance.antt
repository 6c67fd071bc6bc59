-- ===== src/Tracker/Advance.antt =====
-- `advance`, `prepare_endorsements` and `verify` of include/ravl/request_tracker_impl.h. A `Request&`
-- is the identifier under which the map holds it, so that nested calls see each other's writes.
use ravl.Prelude.{ℕ, zero, suc, Bool, true, false, [], ◌∷◌, none, some, if◌then◌else◌}
use ravl.Result.{ok, err, undefined, runtime_error, rethrow, deref, bad_alloc}
use ravl.Exec.{Exec, pure, throw, lift, try_catch, modify, ◌>>=◌, ◌>>◌}
use ravl.IdMap.{find, erase, assign, emplace}
use ravl.Http.Message.{HttpResponses}
use ravl.Tracker.State.{
  RequestState, submitted, waiting_for_endorsements, have_endorsements, finished, error, Submission,
  refused, answered, pending, Request, Tracker,
}

abbrev pub depth : ℕ
depth = 3

module _ {C : Type 0} where
  -- The request behind a reference; a reference to an erased one is undefined.
  unfoldable pub request : ℕ → Exec (Tracker C) (Request C)
  request id t = (deref (find t.requests id), t)

  unfoldable pub put_request : ℕ → Request C → Exec (Tracker C) (Unit {0})
  put_request id r t = (ok tt, record t { requests = assign t.requests id r })

  -- req.state = s;
  unfoldable pub set_state : ℕ → RequestState → Exec (Tracker C) (Unit {0})
  unfolding request put_request
  set_state id s = do r ← request id; put_request id (record r { state = s })

  unfoldable pub store_responses : ℕ → HttpResponses → Exec (Tracker C) (Unit {0})
  store_responses id rs t = elim (find t.http_responses id) [
    | some old ↦ (err bad_alloc, t)
    | none ↦ (ok tt, record t { http_responses = emplace t.http_responses id rs })
  ]

  -- The responses that are kept for a request, none if there are no such, which leave the map.
  unfoldable pub take_responses : ℕ → Exec (Tracker C) HttpResponses
  take_responses id t = elim (find t.http_responses id) [
    | none ↦ (ok [], t)
    | some rs ↦ (ok rs, record t { http_responses = erase t.http_responses id })
  ]

  unfoldable pub verify : ℕ → Exec (Tracker C) (Unit {0})
  unfolding request put_request take_responses
  verify id = do
    req ← request id
    elim req.attestation [
      | none ↦ throw (runtime_error "no attestation to verify")
      | some att ↦ take_responses id >>= (λ responses.
          lift (
            rethrow "attestation verification failed: {}" (att.verify req.options (some responses)))
          >>= (λ claims. request id >>= (λ r. put_request id (record r { claims = claims }))))
    ]

  -- req.callback(id)
  unfoldable pub call_back : ℕ → Exec (Tracker C) (Unit {0})
  unfolding request
  call_back id = do
    req ← request id
    elim req.callback [
      | none ↦ pure tt
      | some callback ↦ modify (λ t. record t { called = id ∷ t.called }) >> lift (callback id)
    ]

  module _ (again : ℕ → Exec (Tracker C) RequestState) where
    -- The lambda that `prepare_endorsements` hands to the HTTP client; `again` is `advance(id)`.
    unfoldable pub on_responses : ℕ → HttpResponses → Exec (Tracker C) (Unit {0})
    on_responses id rs = do store_responses id rs; again id; again id; pure tt

    unfoldable pub set_request_set_id : ℕ → ℕ → Exec (Tracker C) Bool
    unfolding request put_request
    set_request_set_id id set_id = do
      r ← request id
      put_request id (record r { http_request_set_id = some set_id })
      pure true

    unfoldable pub submitted_set : ℕ → Submission → Exec (Tracker C) Bool
    submitted_set id (refused e) = throw e
    submitted_set id (pending set_id) = set_request_set_id id set_id
    submitted_set id (answered set_id rs) = on_responses id rs >> set_request_set_id id set_id

    -- Without endorsements to fetch the answer is `false`.
    unfoldable pub prepare_endorsements : ℕ → Exec (Tracker C) Bool
    unfolding request
    prepare_endorsements id = do
      req ← request id
      elim req.attestation [
        | none ↦ throw (runtime_error "no attestation to verify")
        | some att ↦ lift (att.prepare_endorsements req.options) >>= (λ http_requests.
            elim http_requests [
              | none ↦ pure false
              | some rs ↦ lift (deref req.http_client) >>= (λ client. submitted_set id (client rs))
            ])
      ]

    -- The `switch` of `advance(id, req)`.
    unfoldable pub switch : ℕ → RequestState → Exec (Tracker C) (Unit {0})
    unfolding verify set_state call_back
    switch id error = throw (runtime_error "verification request failed")
    switch id submitted = do
      set_state id waiting_for_endorsements
      wait ← prepare_endorsements id
      if wait then pure tt else (set_state id have_endorsements >> again id >> pure tt)
    switch id waiting_for_endorsements = set_state id have_endorsements
    switch id have_endorsements = do verify id; set_state id finished; call_back id
    switch id finished = pure tt

    -- `advance(id, req)`: an exception in the switch ends in the state `error`.
    unfoldable pub advance_step : ℕ → Exec (Tracker C) RequestState
    unfolding request set_state
    advance_step id = do
      req ← request id
      try_catch (switch id req.state) (λ e. set_state id error)
      r ← request id
      pure r.state

  -- The nested calls: of `advance(id, req)` by itself, and of `advance(id)` by the lambda, which
  -- throws if it finds no request. `depth` levels are enough, and level 0 is never reached.
  unfoldable pub advance_at : ℕ → ℕ → Exec (Tracker C) RequestState
  advance_at zero id = lift undefined
  advance_at (suc depth) id = λ t. elim (find t.requests id) [
    | none ↦ (err (runtime_error "request not found"), t)
    | some r ↦ advance_step (advance_at depth) id t
  ]

  -- `advance(id)`
  unfoldable pub advance : ℕ → Exec (Tracker C) RequestState
  unfolding advance_at
  advance id = advance_at depth id
