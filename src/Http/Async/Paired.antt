-- ===== src/Http/Async/Paired.antt =====
-- An invariant of the asynchronous client: responses belong to requests.
use ravl.Prelude.{ℕ, ◌≡◌, refl, List, [], ◌∷◌, Option, none, some}
use mathlib.Core.Path.{subst}
use mathlib.Core.Option.{some-injective}
use ravl.Result.{Result, ok, err, undefined}
use ravl.IdMap.{find}
use ravl.Http.Async.{CurlClient, new_client}
use ravl.Http.Async.Pairs.{none_found}
use ravl.Http.Async.Events.{
  submits, erases, writes, waits, delivers, stores, Event, caught, uncaught, own_callback, step,
  run,
}
use ravl.Http.Async.Operations.{
  IsPaired, Leaves, Returns, submit-IsPaired, write_response-IsPaired, poll_wait-IsPaired,
  poll_deliver-IsPaired, erase_set-IsPaired, store_keep_going-IsPaired,
}

module _ {W : Type 0} where
  caught-IsPaired :
      (r : Result ℕ × CurlClient W) (c : CurlClient W) → Leaves r → caught r ≡ some c → IsPaired c
  caught-IsPaired (ok id, c') c p e = subst IsPaired (some-injective _ _ e) p
  caught-IsPaired (err x, c') c p e = subst IsPaired (some-injective _ _ e) p
  caught-IsPaired (undefined, c') c p e = absurd cc

  uncaught-IsPaired :
      {A : Type 0} (r : Result A × CurlClient W) (c : CurlClient W)
      → Returns r
      → uncaught r ≡ some c
      → IsPaired c
  uncaught-IsPaired (ok a, c') c p e = subst IsPaired (some-injective _ _ e) (p a refl)
  uncaught-IsPaired (err x, c') c p e = absurd cc
  uncaught-IsPaired (undefined, c') c p e = absurd cc

  step-IsPaired :
      (c c' : CurlClient W) (e : Event W) → IsPaired c → step c e ≡ some c' → IsPaired c'
  step-IsPaired c c' (submits setup rs callback) p e =
      caught-IsPaired _ c' (submit-IsPaired setup rs callback c p) e
  step-IsPaired c c' (erases id) p e = uncaught-IsPaired _ c' (λ _ _. erase_set-IsPaired id c p) e
  step-IsPaired c c' (writes id i headers chunks) p e =
      uncaught-IsPaired _ c' (λ _ _. write_response-IsPaired id i headers chunks c p) e
  step-IsPaired c c' (waits b id ms) p e = uncaught-IsPaired _ c' (poll_wait-IsPaired b id ms c p) e
  step-IsPaired c c' (delivers id ms) p e =
      uncaught-IsPaired _ c'
        (poll_deliver-IsPaired id ms (own_callback (find c.monitor_threads id)) c p) e
  step-IsPaired c c' (stores id object b) p e =
      uncaught-IsPaired _ c' (λ _ _. store_keep_going-IsPaired id object b c p) e

  run_from-IsPaired :
      (c c' : CurlClient W) (es : List (Event W)) → IsPaired c → run c es ≡ some c' → IsPaired c'
  unfolding run
  run_from-IsPaired c c' [] p e = subst IsPaired (some-injective _ _ e) p
  run_from-IsPaired c c' (x ∷ es) p e =
      go (step c x) refl e (λ c₁ q f. run_from-IsPaired c₁ c' es q f)
    where
      go :
          (o : Option (CurlClient W))
          → step c x ≡ o
          → elim o [ none ↦ none | some c₁ ↦ run c₁ es ] ≡ some c'
          → ((c₁ : CurlClient W) → IsPaired c₁ → run c₁ es ≡ some c' → IsPaired c')
          → IsPaired c'
      go none f g again = absurd cc
      go (some c₁) f g again = again c₁ (step-IsPaired c c₁ x p f) g

  -- After any sequence of calls, of writes by libcurl and of sections of the monitor threads, with
  -- any answers of libcurl and any exceptions thrown by `submit`: if the program is still defined
  -- and running, every set of responses belongs to a set of requests, and has as many elements.
  pub run-IsPaired :
      (w : W) (events : List (Event W)) (c : CurlClient W)
      → run (new_client w) events ≡ some c
      → IsPaired c
  run-IsPaired w events c e =
      run_from-IsPaired (new_client w) c events (λ id rs found. absurd (none_found id rs found)) e
