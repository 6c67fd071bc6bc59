-- ===== src/Tracker/Accept.antt =====
-- The outcome of `advance` on a submitted request, on every path through `prepare_endorsements`.
use ravl.Prelude.{ℕ, suc, ◌≡◌, refl, ◌∙◌, true, false, Option, none, some, arith}
use ravl.Result.{Exception, Result, ok, err, undefined, runtime_error, bad_alloc}
use ravl.Exec.{Exec}
use ravl.IdMap.{find, emplace, assign, find-emplace, find-assign_self, assign-assign}
use ravl.Http.Message.{HttpRequests, HttpResponses}
use ravl.Tracker.State.{
  RequestState, submitted, waiting_for_endorsements, have_endorsements, Attestation, Submission,
  refused, answered, pending, Client, Request, Tracker,
}
use ravl.Tracker.Advance.{
  advance_at, advance_step, switch, request, prepare_endorsements, submitted_set, on_responses,
  store_responses, set_request_set_id,
}
use ravl.Tracker.Outcome.{
  settle, accept, fail, sent_with, fetched_with, prepared_with, accept_with, with_set,
}
use ravl.Tracker.Runs.{Runs, Runs-ok, Runs-err, Runs-undefined, have-Runs}

module _ {C : Type 0} where
  pub at_step :
      (n id : ℕ) (t : Tracker C) (r : Request C)
      → find t.requests id ≡ some r
      → advance_at (suc n) id t ≡ advance_step (advance_at n) id t
  unfolding advance_at
  at_step n id t r here = ground (arith, here)

  settled_at :
      (n id : ℕ) (t : Tracker C) (r : Request C)
      → find t.requests id ≡ some r
      → r.state ≡ have_endorsements
      → Runs id t (settle id r (find t.http_responses id)) (advance_at (suc n) id t)
  settled_at n id t r here hs = rw (at_step n id t r here) (have-Runs (advance_at n) id t r here hs)

  -- A request that waits goes on to `have_endorsements`.
  pub waiting_run :
      (again : ℕ → Exec (Tracker C) RequestState) (id : ℕ) (t : Tracker C) (r : Request C)
      → find t.requests id ≡ some r
      → r.state ≡ waiting_for_endorsements
      → advance_step again id t ≡ (
        ok have_endorsements,
        record t { requests = assign t.requests id (record r { state = have_endorsements }) },
      )
  unfolding advance_step switch
  waiting_run again id t r here hs =
      ground
        (arith, here, hs, find-assign_self t.requests id (record r { state = have_endorsements }))

module _ {C : Type 0} (n id : ℕ) (t : Tracker C) (r : Request C)
    (here : find t.requests id ≡ some r) (fresh : r.state ≡ submitted) where
  abbrev again : ℕ → Exec (Tracker C) RequestState
  again = advance_at (suc n)

  abbrev r₁ : Request C
  r₁ = record r { state = waiting_for_endorsements }

  abbrev t₁ : Tracker C
  t₁ = record t { requests = assign t.requests id r₁ }

  -- Every exception of `prepare_endorsements` before the client has run the callback.
  refused-Runs :
      (e : Exception)
      → prepare_endorsements again id t₁ ≡ (err e, t₁)
      → Runs id t (some (fail r)) (advance_step again id t)
  unfolding switch
  refused-Runs e run =
      Runs-err again id t r here e t₁ r₁ (ground (arith, here, fresh, run))
        (find-assign_self t.requests id r₁) (assign-assign t.requests id r₁ (fail r₁))
        (refl, refl, refl)

  lost-Runs :
      prepare_endorsements again id t₁ ≡ (undefined, t₁) → Runs id t none (advance_step again id t)
  unfolding switch
  lost-Runs run = Runs-undefined again id t r here t₁ (ground (arith, here, fresh, run))

  abbrev waiting_for : ℕ → Request C
  waiting_for set_id = record r₁ { http_request_set_id = some set_id }

  -- A client that only took the requests.
  pending-Runs :
      (set_id : ℕ)
      → prepare_endorsements again id t₁
        ≡ (ok true, record t { requests = assign t.requests id (waiting_for set_id) })
      → Runs id t (some (waiting_for set_id)) (advance_step again id t)
  unfolding switch
  pending-Runs set_id run =
      Runs-ok again id t r here (record t { requests = assign t.requests id (waiting_for set_id) })
        (waiting_for set_id) (ground (arith, here, fresh, run)) refl (refl, refl, refl)

  -- Without endorsements to fetch the request is settled at once.
  nothing-Runs :
      prepare_endorsements again id t₁ ≡ (ok false, t₁)
      → Runs id t
          (settle id (record r { state = have_endorsements }) (find t.http_responses id))
          (advance_step again id t)
  unfolding switch
  nothing-Runs run = go (settle id r₂ (find t.http_responses id)) refl
    where
      r₂ : Request C
      r₂ = record r { state = have_endorsements }

      t₂ : Tracker C
      t₂ = record t { requests = assign t.requests id r₂ }

      inner : Runs id t₂ (settle id r₂ (find t.http_responses id)) (again id t₂)
      inner = settled_at n id t₂ r₂ (find-assign_self t.requests id r₂) refl

      go :
          (o : Option (Request C))
          → settle id r₂ (find t.http_responses id) ≡ o
          → Runs id t o (advance_step again id t)
      go none e = Runs-undefined again id t r here (again id t₂).1 (
          ground (
            arith,
            here,
            fresh,
            run,
            e,
            inner.result,
            find-assign_self t.requests id r₁,
            assign-assign t.requests id r₁ r₂,
          ))
      go (some r') e =
          Runs-ok again id t r here (again id t₂).1 r'
            (ground (
              arith,
              here,
              fresh,
              run,
              e,
              inner.result,
              find-assign_self t.requests id r₁,
              assign-assign t.requests id r₁ r₂,
            ))
            (inner.requests r' e ∙ assign-assign t.requests id r₂ r') (inner.others r' e)

  -- The synchronous client: it has stored the responses and advanced the request twice.
  module _ (set_id : ℕ) (rs : HttpResponses) (idle : find t.http_responses id ≡ none) where
    abbrev r₂ : Request C
    r₂ = record r { state = have_endorsements }

    abbrev stored : Tracker C
    stored = record t₁ { http_responses = emplace t.http_responses id rs }

    abbrev ready : Tracker C
    ready = record stored { requests = assign t.requests id r₂ }

    first_call : again id stored ≡ (ok have_endorsements, ready)
    first_call = ground (
      arith,
      at_step n id stored r₁ (find-assign_self t.requests id r₁),
      waiting_run (advance_at n) id stored r₁ (find-assign_self t.requests id r₁) refl,
      assign-assign t.requests id r₁ r₂,
    )

    the_stored : find ready.http_responses id ≡ some rs
    the_stored = ground (arith, find-emplace t.http_responses id rs idle id)

    second_call : Runs id ready (settle id r₂ (some rs)) (again id ready)
    second_call =
        rw the_stored at (settled_at n id ready r₂ (find-assign_self t.requests id r₂) refl)

    answered-Runs :
        prepare_endorsements again id t₁ ≡ submitted_set again id (answered set_id rs) t₁
        → Runs id t (with_set set_id (settle id r₂ (some rs))) (advance_step again id t)
    unfolding switch submitted_set on_responses store_responses set_request_set_id
    answered-Runs run = go (settle id r₂ (some rs)) refl
      where
        after : Tracker C
        after = (again id ready).1

        go :
            (o : Option (Request C))
            → settle id r₂ (some rs) ≡ o
            → Runs id t (with_set set_id o) (advance_step again id t)
        go none e =
            Runs-undefined again id t r here after
              (ground (arith, here, fresh, run, idle, e, first_call, second_call.result))
        go (some r') e =
            let r'' : Request C = record r' { http_request_set_id = some set_id } in
            Runs-ok again id t r here (record after { requests = assign t.requests id r'' }) r''
              (ground (
                arith,
                here,
                fresh,
                run,
                idle,
                e,
                first_call,
                second_call.result,
                second_call.requests r' e,
                assign-assign t.requests id r₂ r',
                find-assign_self t.requests id r',
                assign-assign t.requests id r' r'',
              ))
              refl (second_call.others r' e)

  -- By the client's answer, the presence of a client, and what the attestation prepares.
  client-Runs :
      (o : Option HttpResponses) (s : Submission)
      → find t.http_responses id ≡ o
      → prepare_endorsements again id t₁ ≡ submitted_set again id s t₁
      → Runs id t (sent_with id r o s) (advance_step again id t)
  unfolding submitted_set set_request_set_id on_responses store_responses
  client-Runs o (refused e) ho run = refused-Runs e run
  client-Runs o (pending set_id) ho run = pending-Runs set_id (
      ground (
        arith,
        run,
        find-assign_self t.requests id r₁,
        assign-assign t.requests id r₁ (waiting_for set_id),
      ))
  client-Runs none (answered set_id rs) ho run = answered-Runs set_id rs ho run
  client-Runs (some old) (answered set_id rs) ho run =
      refused-Runs bad_alloc (ground (arith, run, ho))

  module _ (att : Attestation C) (ha : r.attestation ≡ some att) where
    fetched-Runs :
        (rqs : HttpRequests) (c : Option Client)
        → att.prepare_endorsements r.options ≡ ok (some rqs)
        → r.http_client ≡ c
        → Runs id t (fetched_with id r (find t.http_responses id) rqs c) (advance_step again id t)
    unfolding prepare_endorsements
    fetched-Runs rqs none hp hc =
        lost-Runs (ground (arith, ha, hp, hc, find-assign_self t.requests id r₁))
    fetched-Runs rqs (some client) hp hc =
        client-Runs _ (client rqs) refl
          (unfold request in rw (find-assign_self t.requests id r₁) (rw (ha, hp, hc)))

    prepared-Runs :
        (p : Result (Option HttpRequests))
        → att.prepare_endorsements r.options ≡ p
        → Runs id t (prepared_with id r (find t.http_responses id) p) (advance_step again id t)
    unfolding prepare_endorsements
    prepared-Runs (ok none) hp =
        nothing-Runs (ground (arith, ha, hp, find-assign_self t.requests id r₁))
    prepared-Runs (ok (some rqs)) hp = fetched-Runs rqs r.http_client hp refl
    prepared-Runs (err e) hp =
        refused-Runs e (ground (arith, ha, hp, find-assign_self t.requests id r₁))
    prepared-Runs undefined hp =
        lost-Runs (ground (arith, ha, hp, find-assign_self t.requests id r₁))

  pub accept-Runs : Runs id t (accept id r (find t.http_responses id)) (advance_step again id t)
  unfolding accept prepare_endorsements
  accept-Runs = go r.attestation refl
    where
      go :
          (a : Option (Attestation C))
          → r.attestation ≡ a
          → Runs id t (accept_with id r (find t.http_responses id) a) (advance_step again id t)
      go none ha =
          refused-Runs (runtime_error "no attestation to verify")
            (ground (arith, ha, find-assign_self t.requests id r₁))
      go (some att) ha = prepared-Runs att ha _ refl
