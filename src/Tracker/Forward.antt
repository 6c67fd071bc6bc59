-- ===== src/Tracker/Forward.antt =====
-- What `advance` makes of the tracked requests.
use ravl.Prelude.{ℕ, ◌≡◌, ◌≢◌, ap, ◌∙◌, inl, inr, arith, some, Option-cases}
use ravl.Result.{ok, undefined}
use ravl.IdMap.{find, find-assign, find-assign_self}
use ravl.Tracker.State.{Request, Tracker}
use ravl.Tracker.Advance.{advance}
use ravl.Tracker.Outcome.{outcome}
use ravl.Tracker.Runs.{answer}
use ravl.Tracker.Refines.{advance-outcome}
use ravl.Tracker.Order.{Follows, outcome-Follows}

module _ {C : Type 0} where
  -- A call of `advance` on a tracked request that is defined, whatever the objects do that it calls: it
  -- returns the request's new state. The request is still tracked, its state has not gone back, it is
  -- finished only with claims that its own attestation's `verify` has returned for its options (if it
  -- was so before), and it has kept attestation and options. The other requests are as they were.
  pub advance-Follows :
      (id : ℕ) (t : Tracker C) (r : Request C)
      → find t.requests id ≡ some r
      → (advance id t).0 ≢ undefined
      → (r' : Request C) × ((advance id t).0 ≡ ok r'.state)
        × (find (advance id t).1.requests id ≡ some r')
        × Follows r r'
        × ((j : ℕ) → j ≢ id → find (advance id t).1.requests j ≡ find t.requests j)
  advance-Follows id t r here defined =
      let run = advance-outcome id t r here in
      elim (Option-cases (outcome id r (find t.http_responses id))) [
        | inl e ↦ absurd (defined (run.result ∙ ap (λ o. answer o) e))
        | inr (r', e) ↦
            let stored = run.requests r' e in
            (
              r',
              run.result ∙ ap (λ o. answer o) e,
              ap (λ m. find m id) stored ∙ find-assign_self t.requests id r',
              outcome-Follows id r (find t.http_responses id) r' e,
              λ j other.
                  ap (λ m. find m j) stored ∙ ground (arith, find-assign t.requests id r' j, other),
            )
      ]
