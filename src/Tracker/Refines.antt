-- ===== src/Tracker/Refines.antt =====
-- `advance` refines `outcome`: in every state, on every path, whatever the attestation, the HTTP
-- client and the callback do.
use ravl.Prelude.{ℕ, suc, ◌≡◌, refl, sym, ap, [], ◌∷◌, none, some, arith}
use ravl.Result.{Result, err, runtime_error}
use ravl.IdMap.{IdMap, find, assign}
use ravl.Tracker.State.{
  RequestState, submitted, waiting_for_endorsements, have_endorsements, finished, error, Request,
  Tracker,
}
use ravl.Tracker.Advance.{advance, advance_at, advance_step, switch}
use ravl.Tracker.Outcome.{outcome, outcome_in}
use ravl.Tracker.Runs.{Runs, Runs-ok, Runs-err, have-Runs}
use ravl.Tracker.Accept.{at_step, waiting_run, accept-Runs}

-- Writing back what is there changes nothing.
assign_same {ℓ} : {V : Type ℓ} (m : IdMap V) (k : ℕ) (v : V) → find m k ≡ some v → assign m k v ≡ m
unfolding find assign
assign_same [] k v h = cc
assign_same ((j, w) ∷ m) k v h = ground (arith, assign_same m k v)

module _ {C : Type 0} (id : ℕ) (t : Tracker C) (r : Request C)
    (here : find t.requests id ≡ some r) where
  step-Runs :
      (n : ℕ) (s : RequestState)
      → r.state ≡ s
      → Runs id t
          (outcome_in s id r (find t.http_responses id))
          (advance_step (advance_at (suc n)) id t)
  unfolding switch
  step-Runs n submitted hs = accept-Runs n id t r here hs
  step-Runs n waiting_for_endorsements hs = record {
    result = ap (λ (x : Result RequestState × Tracker C). x.0) (waiting_run _ id t r here hs);
    requests = λ r' e. ground (arith, e, waiting_run (advance_at (suc n)) id t r here hs);
    others = λ r' e. rw (waiting_run (advance_at (suc n)) id t r here hs) (refl, refl, refl);
  }
  step-Runs n have_endorsements hs = have-Runs _ id t r here hs
  step-Runs n finished hs =
      Runs-ok _ id t r here t r (ground (arith, hs)) (sym (assign_same t.requests id r here))
        (refl, refl, refl)
  step-Runs n error hs =
      Runs-err _ id t r here (runtime_error "verification request failed") t r (ground (arith, hs))
        here refl (refl, refl, refl)

  -- One call of `advance` on a tracked request returns the state of the request's outcome, or is
  -- undefined exactly if the outcome is; and it leaves the map of requests as it was but for the
  -- outcome, which replaces the request.
  pub advance-outcome : Runs id t (outcome id r (find t.http_responses id)) (advance id t)
  unfolding advance outcome
  advance-outcome = rw (at_step 2 id t r here) (step-Runs 1 r.state refl)

-- On any other identifier `advance` throws and changes nothing.
pub advance_missing :
    {C : Type 0} (id : ℕ) (t : Tracker C)
    → find t.requests id ≡ none
    → advance id t ≡ (err (runtime_error "request not found"), t)
unfolding advance advance_at
advance_missing id t missing = ground (arith, missing)
