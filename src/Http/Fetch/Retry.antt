-- ===== src/Http/Fetch/Retry.antt =====
-- What an answer of too many requests leads to in the browser.
use ravl.Prelude.{
  ℕ, suc, zero, ◌<◌, ◌≡◌, ◌≢◌, refl, ap, ◌∙◌, arith, Bool, true, false, List, [], ◌∷◌, Option, none,
  some, Bytes, length, get_elem?, set, replicate, map, ltb, length-set, get_elem?-set_ne,
  length-replicate,
}
use ravl.Prelude.Cases.{if_cases, option_cases}
use ravl.Result.{Result, result_cases, ok, err, runtime_error}
use ravl.IdMap.{find, size, assign, emplace, find-assign_self, find-emplace}
use ravl.Http.Message.{
  HttpRequest, HttpRequests, HttpResponse, HttpResponses, no_response, get_header_data, find_header,
}
use ravl.Http.Async.{Callback}
use ravl.Http.Fetch.{
  Fetched, TrackedRequests, FetchTracker, must_retry, is_none_pending, resize, submit, store,
  finish, complete,
}

resize_same : (rs : HttpResponses) (n : ℕ) → length rs ≡ n → resize rs n ≡ rs
resize_same rs n h = ground (arith, h)

pending_lem :
    (fetches : List Bool) (i : ℕ)
    → get_elem? fetches i ≡ some true
    → is_none_pending fetches ≡ false
pending_lem [] i h = absurd cc
pending_lem (true ∷ fetches) i h = refl
pending_lem (false ∷ fetches) zero h = absurd (ground (arith, h))
pending_lem (false ∷ fetches) (suc i) h = pending_lem fetches i h

get_elem?-replicate : (n i : ℕ) → i < n → get_elem? (replicate n no_response) i ≡ some no_response
get_elem?-replicate zero i h = absurd (omega (arith, h))
get_elem?-replicate (suc n) zero h = refl
get_elem?-replicate (suc n) (suc i) h = get_elem?-replicate n i (omega (arith, h))

inside_lem : (rs : HttpRequests) (i : ℕ) (r : HttpRequest) → get_elem? rs i ≡ some r → i < length rs
inside_lem [] i r h = absurd cc
inside_lem (q ∷ rs) zero r h = omega arith
inside_lem (q ∷ rs) (suc i) r h = omega (arith, inside_lem rs i r h)

abbrev pub AllOthers : ℕ → List (ℕ × Fetched) → Type 0
AllOthers i [] = Unit {0}
AllOthers i ((j, fetch) ∷ ends) = (j ≢ i) × AllOthers i ends

module _ (start : Bytes → Bool) where
  started :
      (rs : HttpRequests) (i : ℕ) (r : HttpRequest)
      → get_elem? rs i ≡ some r
      → start r.url ≡ true
      → get_elem? (map (λ q. start q.url) rs) i ≡ some true
  started [] i r h s = absurd cc
  started (q ∷ rs) zero r h s = ground (arith, h, s)
  started (q ∷ rs) (suc i) r h s = started rs i r h s

module _ (start : Bytes → Bool) {W : Type 0} where
  -- The fetch of the request has not ended, and its response is as it was made.
  pub record IsWaiting (id i : ℕ) (c : FetchTracker W) : Type 0 where
    pub t : TrackedRequests W
    pub rs : HttpResponses
    pub tracked : find c.requests id ≡ some t
    pub found : find c.responses id ≡ some rs
    pub same : length rs ≡ length t.requests
    pub inside : i < length t.requests
    pub pending : get_elem? t.fetches i ≡ some true
    pub empty : get_elem? rs i ≡ some no_response

  abbrev Stays : ℕ → ℕ → {A : Type 0} → Result A × FetchTracker W → Type 0
  Stays id i r = IsWaiting id i r.1

  store-IsWaiting :
      (id i : ℕ) (t : TrackedRequests W) (rs : HttpResponses) (c : FetchTracker W)
      → length rs ≡ length t.requests
      → i < length t.requests
      → get_elem? t.fetches i ≡ some true
      → get_elem? rs i ≡ some no_response
      → IsWaiting id i (store start id t rs c).1
  unfolding store
  store-IsWaiting id i t rs c same inside pending empty =
      let c' : FetchTracker W = record c {
        requests = assign c.requests id t;
        responses = assign c.responses id rs;
      } in
      let kept : IsWaiting id i c' = record {
        t = t;
        rs = rs;
        tracked = find-assign_self c.requests id t;
        found = find-assign_self c.responses id rs;
        same = same;
        inside = inside;
        pending = pending;
        empty = empty;
      } in
      option_cases (Stays id i) t.callback _ _ (λ _. kept)
        (λ f _. rw (pending_lem t.fetches i pending) kept)

  finish-IsWaiting :
      (id i j : ℕ) (fetch : Fetched) (response : HttpResponse) (c : FetchTracker W)
      → j ≢ i
      → (w : IsWaiting id i c) → IsWaiting id i (finish start id j fetch w.t w.rs response c).1
  unfolding finish
  finish-IsWaiting id i j fetch response c other w =
      let kept : (b : Bool) (r : HttpResponse)
          → IsWaiting id i
              (store start id (record w.t { fetches = set w.t.fetches j b }) (set w.rs j r) c).1 =
        λ b r.
          store-IsWaiting id i (record w.t { fetches = set w.t.fetches j b }) (set w.rs j r) c
            (length-set w.rs j r ∙ w.same) w.inside
            (get_elem?-set_ne w.t.fetches b other ∙ w.pending)
            (get_elem?-set_ne w.rs r other ∙ w.empty) in
      result_cases (Stays id i) (must_retry fetch response) _ _ _
        (λ (again, r).
          if_cases (Stays id i) (ltb j (length w.t.fetches)) _ _
            (λ _. if_cases (Stays id i) again _ _ (λ _. kept _ _) (λ _. kept _ _)) (λ _. w))
        (λ x. w) w

  complete-IsWaiting :
      (id i j : ℕ) (fetch : Fetched) (c : FetchTracker W)
      → j ≢ i
      → IsWaiting id i c
      → IsWaiting id i (complete start id j fetch c).1
  unfolding complete
  complete-IsWaiting id i j fetch c other w =
      let rs = resize w.rs (length w.t.requests) in
      let resized : rs ≡ w.rs = resize_same w.rs (length w.t.requests) w.same in
      let c' : FetchTracker W = record c { responses = assign c.responses id rs } in
      let w' : IsWaiting id i c' = record {
        t = w.t;
        rs = rs;
        tracked = w.tracked;
        found = find-assign_self c.responses id rs;
        same = ap (λ l. length l) resized ∙ w.same;
        inside = w.inside;
        pending = w.pending;
        empty = ap (λ l. get_elem? l i) resized ∙ w.empty;
      } in
      rw (w.tracked, complete)
        (if_cases (Stays id i) (ltb j (length w.t.requests)) _ _
          (λ _. rw w.found (
            option_cases (Stays id i) (get_elem? rs j) _ _ (λ _. w')
              (λ response _. finish-IsWaiting id i j fetch response c' other w')))
          (λ _. w))

  -- The browser's calls of `complete`; what one throws does not stop the next.
  abbrev pub run : ℕ → List (ℕ × Fetched) → FetchTracker W → FetchTracker W
  run id [] c = c
  run id ((j, fetch) ∷ ends) c = run id ends (complete start id j fetch c).1

  run-IsWaiting :
      (id i : ℕ) (ends : List (ℕ × Fetched)) (c : FetchTracker W)
      → AllOthers i ends
      → IsWaiting id i c
      → IsWaiting id i (run id ends c)
  run-IsWaiting id i [] c others w = w
  run-IsWaiting id i ((j, fetch) ∷ ends) c others w =
      run-IsWaiting id i ends (complete start id j fetch c).1 others.1
        (complete-IsWaiting id i j fetch c others.0 w)

  -- A header is asked for in the response, which has none yet.
  complete_refused :
      (id i : ℕ) (fetch : Fetched) (c : FetchTracker W)
      → IsWaiting id i c
      → fetch.status ≡ 429
      → (complete start id i fetch c).0 ≡ err (runtime_error "missing response header")
  unfolding complete finish must_retry get_header_data find_header
  complete_refused id i fetch c w many = ground (
    arith,
    w.tracked,
    w.found,
    w.inside,
    w.empty,
    resize_same w.rs (length w.t.requests) w.same,
    many,
  )

  submit-IsWaiting :
      (rs : HttpRequests) (callback : Option (Callback W)) (i : ℕ) (r : HttpRequest)
      (c : FetchTracker W)
      → find c.requests (size c.requests) ≡ none
      → find c.responses (size c.requests) ≡ none
      → get_elem? rs i ≡ some r
      → start r.url ≡ true
      → ((submit start rs callback c).0 ≡ ok (size c.requests))
        × IsWaiting (size c.requests) i (submit start rs callback c).1
  unfolding submit
  submit-IsWaiting rs callback i r c new free at_i begun =
      let id = size c.requests in
      let first : TrackedRequests W = record { requests = rs; fetches = []; callback = none } in
      let t : TrackedRequests W = record {
        requests = rs;
        fetches = map (λ q. start q.url) rs;
        callback = callback;
      } in
      rw (new, submit)
        (rw free (
          refl,
          record {
            t = t;
            rs = replicate (length rs) no_response;
            tracked = find-assign_self (emplace c.requests id first) id t;
            found =
                ground
                  (arith, find-emplace c.responses id (replicate (length rs) no_response) free id);
            same = length-replicate (length rs) no_response;
            inside = inside_lem rs i r at_i;
            pending = started start rs i r at_i begun;
            empty = get_elem?-replicate (length rs) i (inside_lem rs i r at_i);
          },
        ))

  -- A request of a set that was submitted on an unused identifier, whose fetch was started and ends
  -- with the status 429, after any ends of other fetches of the set: it is never retried. The call
  -- of `complete` throws, since the header "Retry-After" is looked for in the response that is kept
  -- for the request, which has no headers yet, and not in the fetch.
  pub complete_never_retries :
      (rs : HttpRequests) (callback : Option (Callback W)) (i : ℕ) (r : HttpRequest)
      (ends : List (ℕ × Fetched)) (fetch : Fetched) (c : FetchTracker W)
      → find c.requests (size c.requests) ≡ none
      → find c.responses (size c.requests) ≡ none
      → get_elem? rs i ≡ some r
      → start r.url ≡ true
      → AllOthers i ends
      → fetch.status ≡ 429
      → ((submit start rs callback c).0 ≡ ok (size c.requests))
        × ((complete start
              (size c.requests)
              i
              fetch
              (run (size c.requests) ends (submit start rs callback c).1)).0
            ≡ err (runtime_error "missing response header"))
  complete_never_retries rs callback i r ends fetch c new free at_i begun others many =
      let (returned, w) = submit-IsWaiting rs callback i r c new free at_i begun in
      let id = size c.requests in
      (
        returned,
        complete_refused id i fetch (run id ends (submit start rs callback c).1)
            (run-IsWaiting id i ends (submit start rs callback c).1 others w) many,
      )
