-- ===== src/Tracker/Runs.antt =====
-- `advance` has the outcome that Outcome.antt describes, in every state and on every path.
use ravl.Prelude.{ℕ, ◌≡◌, refl, ap, ◌∷◌, Option, none, some, arith}
use ravl.Result.{Exception, Result, ok, err, undefined, runtime_error, quoted}
use ravl.Exec.{Exec}
use ravl.IdMap.{find, erase, assign, find-assign_self, assign-assign}
use ravl.Http.Message.{HttpResponses}
use ravl.Tracker.State.{
  RequestState, have_endorsements, finished, error, Attestation, Callback, Request, Tracker,
}
use ravl.Tracker.Advance.{advance_step, switch, request}
use ravl.Tracker.Outcome.{kept, settle, fail, judge, notify, notified, settle_with}

module _ {C : Type 0} where
  abbrev pub answer : Option (Request C) → Result RequestState
  answer none = undefined
  answer (some r) = ok r.state

  -- What no call of `advance` writes.
  abbrev pub SameRest : Tracker C → Tracker C → Type 0
  SameRest t' t =
      (t'.http_client ≡ t.http_client)
      × (t'.next_request_id ≡ t.next_request_id)
      × (t'.released ≡ t.released)

  -- A run with outcome `o` from tracker `t`: its result, and the requests that it leaves.
  pub record Runs (id : ℕ) (t : Tracker C) (o : Option (Request C))
      (run : Result RequestState × Tracker C) : Type 0 where
    pub result : run.0 ≡ answer o
    pub requests : (r' : Request C) → o ≡ some r' → run.1.requests ≡ assign t.requests id r'
    pub others : (r' : Request C) → o ≡ some r' → SameRest run.1 t

module _ {C : Type 0} (again : ℕ → Exec (Tracker C) RequestState) (id : ℕ) (t : Tracker C)
    (r : Request C) (here : find t.requests id ≡ some r) where
  -- `advance_step` by what the switch comes to.
  step_ok :
      (t' : Tracker C) (r' : Request C)
      → switch again id r.state t ≡ (ok tt, t')
      → find t'.requests id ≡ some r'
      → advance_step again id t ≡ (ok r'.state, t')
  unfolding advance_step
  step_ok t' r' run there = unfold request in rw (here, run, there)

  step_err :
      (e : Exception) (t' : Tracker C) (r' : Request C)
      → switch again id r.state t ≡ (err e, t')
      → find t'.requests id ≡ some r'
      → advance_step again id t
        ≡ (ok error, record t' { requests = assign t'.requests id (fail r') })
  unfolding advance_step
  step_err e t' r' run there = ground (arith, here, find-assign_self t'.requests id (fail r'))

  step_undefined :
      (t' : Tracker C)
      → switch again id r.state t ≡ (undefined, t')
      → (advance_step again id t).0 ≡ undefined
  unfolding advance_step
  step_undefined t' run = ground (arith, here)

  pub Runs-ok :
      (t' : Tracker C) (r' : Request C)
      → switch again id r.state t ≡ (ok tt, t')
      → t'.requests ≡ assign t.requests id r'
      → SameRest t' t
      → Runs id t (some r') (advance_step again id t)
  Runs-ok t' r' run kept' same = record {
    result = ap (λ (x : Result RequestState × Tracker C). x.0) whole;
    requests = λ r'' e. ground (arith, whole, kept');
    others = λ r'' e. rw whole same;
  }
    where
      whole : advance_step again id t ≡ (ok r'.state, t')
      whole = step_ok t' r' run (rw kept' (find-assign_self t.requests id r'))

  pub Runs-err :
      (e : Exception) (t' : Tracker C) (r' : Request C)
      → switch again id r.state t ≡ (err e, t')
      → find t'.requests id ≡ some r'
      → assign t'.requests id (fail r') ≡ assign t.requests id (fail r')
      → SameRest t' t
      → Runs id t (some (fail r')) (advance_step again id t)
  Runs-err e t' r' run there kept' same = record {
    result = ap (λ (x : Result RequestState × Tracker C). x.0) (step_err e t' r' run there);
    requests = λ r'' e'. ground (arith, step_err e t' r' run there, kept');
    others = λ r'' e'. rw (step_err e t' r' run there) same;
  }

  pub Runs-undefined :
      (t' : Tracker C)
      → switch again id r.state t ≡ (undefined, t')
      → Runs id t none (advance_step again id t)
  Runs-undefined t' run = record {
    result = step_undefined t' run;
    requests = λ r'' e. cc;
    others = λ r'' e. cc;
  }

  -- The responses without those of this request.
  abbrev rest : Option HttpResponses → Tracker C
  rest none = t
  rest (some rs) = record t { http_responses = erase t.http_responses id }

  rest_same : (o : Option HttpResponses) → SameRest (rest o) t
  rest_same none = (refl, refl, refl)
  rest_same (some rs) = (refl, refl, refl)

  module _ (settled : r.state ≡ have_endorsements) where
    have_null : r.attestation ≡ none → Runs id t (some (fail r)) (advance_step again id t)
    unfolding switch
    have_null ha =
        Runs-err (runtime_error "no attestation to verify") t r (ground (arith, here)) here refl
          (refl, refl, refl)

    module _ (att : Attestation C) (ha : r.attestation ≡ some att) where
      abbrev judged : Request C → Tracker C
      judged r' = record (rest (find t.http_responses id)) { requests = assign t.requests id r' }

      abbrev called_back : Request C → Tracker C
      called_back r' = record (judged r') { called = id ∷ t.called }

      have_called :
          (c : Option C)
          → att.verify r.options (some (kept (find t.http_responses id))) ≡ ok c
          → (callback : Callback) → r.callback ≡ some callback
          → (k : Result (Unit {0})) → callback id ≡ k
          → Runs id t
              (notified (record r { claims = c; state = finished }) k)
              (advance_step again id t)
      unfolding switch
      have_called c hv callback ho k hk =
          let r₁ : Request C = record r { claims = c } in
          let r₂ : Request C = record r₁ { state = finished } in
          let run : switch again id r.state t ≡ (k, called_back r₂) = ground (
            arith,
            here,
            ha,
            hv,
            ho,
            hk,
            settled,
            find-assign_self t.requests id r₁,
            find-assign_self t.requests id r₂,
            assign-assign t.requests id r₁ r₂,
          ) in
          notified-Runs k run
        where
          r₂ : Request C
          r₂ = record r { claims = c; state = finished }

          notified-Runs :
              (k : Result (Unit {0}))
              → switch again id r.state t ≡ (k, called_back r₂)
              → Runs id t (notified r₂ k) (advance_step again id t)
          notified-Runs (ok _) run = Runs-ok (called_back r₂) r₂ run refl (rest_same _)
          notified-Runs (err e) run =
              Runs-err e (called_back r₂) r₂ run (find-assign_self t.requests id r₂)
                (assign-assign t.requests id r₂ (fail r₂)) (rest_same _)
          notified-Runs undefined run = Runs-undefined (called_back r₂) run

      have_notified :
          (c : Option C)
          → att.verify r.options (some (kept (find t.http_responses id))) ≡ ok c
          → (o : Option Callback) → r.callback ≡ o
          → Runs id t
              (notify id (record r { claims = c; state = finished }) o)
              (advance_step again id t)
      unfolding switch
      have_notified c hv none ho =
          let r₁ : Request C = record r { claims = c } in
          let r₂ : Request C = record r₁ { state = finished } in
          Runs-ok (judged r₂) r₂
            (ground (
              arith,
              here,
              ha,
              hv,
              ho,
              settled,
              find-assign_self t.requests id r₁,
              find-assign_self t.requests id r₂,
              assign-assign t.requests id r₁ r₂,
            ))
            refl (rest_same _)
      have_notified c hv (some callback) ho = have_called c hv callback ho (callback id) refl

      have_judged :
          (v : Result (Option C))
          → att.verify r.options (some (kept (find t.http_responses id))) ≡ v
          → Runs id t (judge id r v) (advance_step again id t)
      unfolding switch
      have_judged (ok c) hv = have_notified c hv r.callback refl
      have_judged (err e) hv =
          Runs-err (quoted "attestation verification failed: {}" e)
            (rest (find t.http_responses id)) r (ground (arith, here, ha, hv, settled))
            (ground (arith, here)) (ground arith) (rest_same _)
      have_judged undefined hv =
          Runs-undefined (rest (find t.http_responses id)) (ground (arith, here, ha, hv, settled))

  pub have-Runs :
      r.state ≡ have_endorsements
      → Runs id t (settle id r (find t.http_responses id)) (advance_step again id t)
  unfolding settle
  have-Runs settled = go r.attestation refl
    where
      go :
          (a : Option (Attestation C))
          → r.attestation ≡ a
          → Runs id t
              (settle_with id r (kept (find t.http_responses id)) a)
              (advance_step again id t)
      go none ha = have_null settled ha
      go (some att) ha = have_judged settled att ha _ refl
