-- ===== src/Tracker/Sound.antt =====
-- What holds of every tracker that a sequence of calls leads to.
use ravl.Prelude.{
  ℕ, ◌≡◌, refl, sym, ◌∙◌, ◌≢◌, Bool, true, false, [], Option, none, some, arith, ◌==◌,
  if◌then◌else◌,
}
use mathlib.Core.Path.{subst}
use mathlib.Core.Option.{some-injective}
use ravl.Result.{Result, ok, err, undefined}
use ravl.Exec.{Exec, continue, ◌>>=◌}
use ravl.IdMap.{IdMap, find, assign, emplace, erase, find-assign, find-emplace, find-erase}
use ravl.Options.{Options}
use ravl.Http.Message.{HttpResponses}
use ravl.Tracker.State.{
  RequestState, submitted, finished, Attestation, Client, Callback, Request, Tracker,
}
use ravl.Tracker.Advance.{advance, on_responses, store_responses}
use ravl.Tracker.Api.{new_request, enter, submit, result, result_of, erase_request}
use ravl.Tracker.Runs.{answer}
use ravl.Tracker.Refines.{advance-outcome, advance_missing}
use ravl.Tracker.Order.{HasVerified, IsJudged, outcome-Follows}
use ravl.Tracker.Events.{submits, advances, responds, erases, Reach, start, next}

-- Every request that is finished has claims which its attestation has verified.
abbrev pub AllJudged : {C : Type 0} → IdMap (Request C) → Type 0
AllJudged {C} m = (id : ℕ) (r : Request C) → find m id ≡ some r → IsJudged r

-- The invariant. The tracker's own HTTP client is never set, so none is ever told to erase a set.
pub record IsSound {C : Type 0} (t : Tracker C) : Type 0 where
  pub judged : AllJudged t.requests
  pub no_client : t.http_client ≡ none
  pub none_released : t.released ≡ []

module _ {C : Type 0} where
  IsJudged-if :
      (b : Bool) (o p : Option (Request C)) (q : Request C)
      → ((r : Request C) → o ≡ some r → IsJudged r)
      → ((r : Request C) → p ≡ some r → IsJudged r)
      → (if b then o else p) ≡ some q
      → IsJudged q
  IsJudged-if true o p q ho hp e = ho q e
  IsJudged-if false o p q ho hp e = hp q e

  IsJudged-one : (r : Request C) → IsJudged r → (q : Request C) → some r ≡ some q → IsJudged q
  IsJudged-one r h q e = subst IsJudged (some-injective r q e) h

  assign-AllJudged :
      (m : IdMap (Request C)) (id : ℕ) (r : Request C)
      → AllJudged m
      → IsJudged r
      → AllJudged (assign m id r)
  assign-AllJudged m id r all h j q e =
      IsJudged-if (id == j) (some r) (find m j) q (IsJudged-one r h) (all j)
        (sym (find-assign m id r j) ∙ e)

  emplace-AllJudged :
      (m : IdMap (Request C)) (id : ℕ) (r : Request C)
      → find m id ≡ none
      → AllJudged m
      → IsJudged r
      → AllJudged (emplace m id r)
  emplace-AllJudged m id r unused all h j q e =
      IsJudged-if (id == j) (some r) (find m j) q (IsJudged-one r h) (all j)
        (sym (find-emplace m id r unused j) ∙ e)

  erase-AllJudged : (m : IdMap (Request C)) (id : ℕ) → AllJudged m → AllJudged (erase m id)
  erase-AllJudged m id all j q e =
      IsJudged-if (id == j) none (find m j) q (λ r h. cc) (all j) (sym (find-erase m id j) ∙ e)

  answered_outcome :
      (o : Option (Request C)) → answer o ≢ undefined → (r' : Request C) × (o ≡ some r')
  answered_outcome none h = absurd (h refl)
  answered_outcome (some r') h = (r', refl)

-- `m` keeps the invariant, whether it returns or throws.
abbrev Keeps : {A C : Type 0} → Exec (Tracker C) A → Type 0
Keeps {C = C} m = (t : Tracker C) → IsSound t → (m t).0 ≢ undefined → IsSound (m t).1

module _ {A B C : Type 0} where
  Keeps-bind :
      (m : Exec (Tracker C) A) (f : A → Exec (Tracker C) B)
      → Keeps m
      → ((a : A) → Keeps (f a))
      → Keeps (m >>= f)
  Keeps-bind m f km kf t s = go (m t).0 (km t s)
    where
      go :
          (x : Result A)
          → (x ≢ undefined → IsSound (m t).1)
          → (continue x f (m t).1).0 ≢ undefined
          → IsSound (continue x f (m t).1).1
      go (ok a) h d = kf a (m t).1 (h (λ e. cc)) d
      go (err e) h d = h (λ e. cc)
      go undefined h d = absurd (d refl)

module _ {C : Type 0} where
  advance-Keeps : (id : ℕ) → Keeps {C = C} (advance id)
  advance-Keeps id t s defined = go (find t.requests id) refl
    where
      go : (o : Option (Request C)) → find t.requests id ≡ o → IsSound (advance id t).1
      go none missing = rw (advance_missing id t missing) s
      go (some r) here =
          let run = advance-outcome id t r here in
          let (r', o) = answered_outcome _ (λ a. defined (run.result ∙ a)) in
          let follows = outcome-Follows id r _ r' o in
          record {
            judged = rw (run.requests r' o) (
                assign-AllJudged t.requests id r' s.judged (follows.verified (s.judged id r here)));
            no_client = (run.others r' o).0 ∙ s.no_client;
            none_released = (run.others r' o).2 ∙ s.none_released;
          }

  enter-Keeps : (r : Request C) → r.state ≡ submitted → Keeps (enter r)
  unfolding enter
  enter-Keeps r fresh t s d = go (find t.requests t.next_request_id) refl
    where
      id : ℕ
      id = t.next_request_id

      go : (o : Option (Request C)) → find t.requests id ≡ o → IsSound (enter r t).1
      go none unused =
          rw (unused, enter)
            (record {
              judged = emplace-AllJudged t.requests id r unused s.judged (λ f. cc);
              no_client = s.no_client;
              none_released = s.none_released;
            })
      go (some old) used =
          rw (used, enter)
            (record { judged = s.judged; no_client = s.no_client; none_released = s.none_released })

  store_responses-Keeps : (id : ℕ) (rs : HttpResponses) → Keeps {C = C} (store_responses id rs)
  unfolding store_responses
  store_responses-Keeps id rs t s d = go (find t.http_responses id) refl
    where
      go :
          (o : Option HttpResponses)
          → find t.http_responses id ≡ o
          → IsSound (store_responses id rs t).1
      go none e =
          rw (e, store_responses)
            (record { judged = s.judged; no_client = s.no_client; none_released = s.none_released })
      go (some old) e = rw (e, store_responses) s

  submit-Keeps :
      (options : Options) (att : Option (Attestation C)) (client : Option Client)
      (callback : Option Callback)
      → Keeps (submit options att client callback)
  unfolding submit
  submit-Keeps options att client callback =
      Keeps-bind _ _ (enter-Keeps (new_request options att client callback) refl)
        (λ id. Keeps-bind _ _ (advance-Keeps id) (λ s t h d. h))

  on_responses-Keeps : (id : ℕ) (rs : HttpResponses) → Keeps {C = C} (on_responses advance id rs)
  unfolding on_responses
  on_responses-Keeps id rs = Keeps-bind _ _ (store_responses-Keeps id rs) (λ _.
      Keeps-bind _ _ (advance-Keeps id) (λ _. Keeps-bind _ _ (advance-Keeps id) (λ s t h d. h)))

  erase-IsSound : (id : ℕ) (t : Tracker C) → IsSound t → IsSound (erase_request id t)
  unfolding erase_request
  erase-IsSound id t s = go (find t.requests id) refl
    where
      go : (o : Option (Request C)) → find t.requests id ≡ o → IsSound (erase_request id t)
      go none e = rw (e, erase_request) s
      go (some r) e =
          rw (e, erase_request)
            (record {
              judged = erase-AllJudged t.requests id s.judged;
              no_client = s.no_client;
              none_released = rw s.no_client s.none_released;
            })

  -- Every tracker that its calls lead to is sound.
  pub Reach-IsSound : (t : Tracker C) → Reach t → IsSound t
  unfolding find
  Reach-IsSound t start = record { judged = λ id r e. cc; no_client = refl; none_released = refl }
  Reach-IsSound u (next r (submits o a c k (d, e))) =
      rw e (submit-Keeps o a c k _ (Reach-IsSound _ r) d)
  Reach-IsSound u (next r (advances id (d, e))) = rw e (advance-Keeps id _ (Reach-IsSound _ r) d)
  Reach-IsSound u (next r (responds id rs (d, e))) =
      rw e (on_responses-Keeps id rs _ (Reach-IsSound _ r) d)
  Reach-IsSound u (next r (erases id e)) = rw e (erase-IsSound id _ (Reach-IsSound _ r))

  result_judged :
      (o : Option (Request C)) (c : C)
      → ((r : Request C) → o ≡ some r → IsJudged r)
      → result_of o ≡ ok c
      → (r : Request C) × (o ≡ some r) × (r.claims ≡ some c) × HasVerified r
  result_judged none c h e = cc
  result_judged (some r) c h e = finished_case r.state refl
    where
      finished_case :
          (s : RequestState)
          → r.state ≡ s
          → (q : Request C) × (some r ≡ some q) × (q.claims ≡ some c) × HasVerified q
      finished_case finished hs = (r, refl, ground arith, h r refl hs)
      finished_case s hs = ground arith

  -- Claims that `result` hands out in any reachable tracker: the request's own attestation has
  -- returned exactly these claims from `verify`, for the options that were submitted with it.
  pub result_verified :
      (t : Tracker C) (id : ℕ) (c : C)
      → Reach t
      → result t id ≡ ok c
      → (r : Request C) × (att : Attestation C) × (rs : HttpResponses) × (find t.requests id
          ≡ some r)
        × (r.attestation ≡ some att)
        × (att.verify r.options (some rs) ≡ ok (some c))
  unfolding result
  result_verified t id c reach e =
      let (r, here, hc, (att, rs, ha, hv)) =
        result_judged (find t.requests id) c ((Reach-IsSound t reach).judged id) e in
      (r, att, rs, here, ha, rw hc at hv)

  -- No reachable tracker has told an HTTP client to erase a set of requests: `erase` asks the
  -- tracker's own client, which nothing sets, and not the one that the request was submitted with.
  pub erase_releases_nothing :
      (t : Tracker C) (id : ℕ) → Reach t → (erase_request id t).released ≡ []
  erase_releases_nothing t id reach = (Reach-IsSound _ (next reach (erases id refl))).none_released
