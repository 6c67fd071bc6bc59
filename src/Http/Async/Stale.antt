-- ===== src/Http/Async/Stale.antt =====
-- Monitor threads whose object is destroyed while they run.
use mathlib.Core.Path.{subst}
use ravl.Prelude.{ℕ, ◌<◌, ◌≡◌, refl, sym, Bool, Option, some, length, ltb, arith}
use ravl.Prelude.Cases.{if_cases, option_cases}
use ravl.Result.{Result, ok, undefined}
use ravl.IdMap.{find, size, find-assign_self, find-erase}
use ravl.Http.Message.{HttpRequests}
use ravl.Http.Async.{
  Callback, MonitorThread, CurlClient, Setup, start_monitor, start_transfers, open_responses,
  open_multi, submit, store_keep_going, erase_set,
}

module _ {W : Type 0} where
  -- The object of the set's thread, if there is one.
  record HasObject (c : CurlClient W) (id object : ℕ) : Type 0 where
    pub thread : MonitorThread W
    pub found : find c.monitor_threads id ≡ some thread
    pub same : thread.object ≡ object

  -- A submission that returns leaves a thread with a new object.
  abbrev Starts : ℕ → ℕ → Result ℕ × CurlClient W → Type 0
  Starts id object r = (j : ℕ) → r.0 ≡ ok j → HasObject r.1 id object

  start_transfers-Starts :
      (setup : Setup) (id multi n : ℕ) (callback : Option (Callback W)) (c : CurlClient W)
      → Starts id c.objects (start_transfers setup id multi n callback c)
  unfolding start_transfers start_monitor
  start_transfers-Starts setup id multi n callback c =
      if_cases (Starts id c.objects) (ltb setup.easy_handles n) _ _ (λ _ j bad. absurd cc)
        (λ _.
          if_cases (Starts id c.objects) setup.performs _ _
            (λ _ j _. record {
              thread = _;
              found = find-assign_self c.monitor_threads id _;
              same = refl;
            })
            (λ _ j bad. absurd cc))

  submit-Starts :
      (setup : Setup) (rs : HttpRequests) (callback : Option (Callback W)) (c : CurlClient W)
      → Starts (size c.requests) c.objects (submit setup rs callback c)
  unfolding submit open_multi open_responses
  submit-Starts setup rs callback c =
      let P = Starts (size c.requests) c.objects in
      option_cases P (find c.requests (size c.requests)) _ _
        (λ _.
          option_cases P setup.multi _ _ (λ _ j bad. absurd cc)
            (λ multi _.
              option_cases P (find c.responses (size c.requests)) _ _
                (λ _. start_transfers-Starts setup (size c.requests) multi (length rs) callback _)
                (λ _ _ j bad. absurd cc)))
        (λ _ _ j bad. absurd cc)

  -- A set is submitted, and the call returns its identifier: a thread with a new object runs for it,
  -- which may store the answers of `poll` in that object. Once `erase` removes the set, whatever other
  -- threads there are, or, at any later time, a `submit` takes the same identifier for another set and
  -- returns it, the object is destroyed; but the thread may still run, and its next store is
  -- undefined.
  pub store_keep_going_stale :
      (setup setup' : Setup) (rs rs' : HttpRequests) (callback callback' : Option (Callback W))
      (c later : CurlClient W) (id : ℕ) (keep_going : Bool)
      → id ≡ size c.requests
      → (submit setup rs callback c).0 ≡ ok id
      → id ≡ size later.requests
      → c.objects < later.objects
      → (submit setup' rs' callback' later).0 ≡ ok id
      → ((store_keep_going id c.objects keep_going (submit setup rs callback c).1).0 ≡ ok tt)
        × ((store_keep_going id c.objects keep_going
              (erase_set id (submit setup rs callback c).1).1).0
            ≡ undefined)
        × ((store_keep_going id c.objects keep_going (submit setup' rs' callback' later).1).0
            ≡ undefined)
  unfolding store_keep_going erase_set
  store_keep_going_stale setup setup' rs rs' callback callback' c later id keep_going e returned e'
        old returned' =
      let c₁ = (submit setup rs callback c).1 in
      let first : HasObject c₁ id c.objects =
        subst (λ i. HasObject c₁ i c.objects) (sym e)
          (submit-Starts setup rs callback c id returned) in
      let c₂ = (submit setup' rs' callback' later).1 in
      let second : HasObject c₂ id later.objects =
        subst (λ i. HasObject c₂ i later.objects) (sym e')
          (submit-Starts setup' rs' callback' later id returned') in
      (
        ground (arith, first.found, first.same),
        ground (arith, first.found, find-erase c₁.monitor_threads id id),
        ground (arith, second.found, second.same, old),
      )
