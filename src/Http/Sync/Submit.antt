-- ===== src/Http/Sync/Submit.antt =====
-- What `submit` of the synchronous client does with a set of requests that are all answered.
use ravl.Prelude.{
  ℕ, ◌+◌, ◌≡◌, refl, ap, List, [], ◌∷◌, ◌++◌, none, some, length, set, replicate, arith,
  length-append, append_assoc,
}
use ravl.Result.{Result, ok}
use ravl.Exec.{Exec}
use ravl.IdMap.{
  IdMap, find, size, erase, assign, emplace, find-assign_self, find-erase, find-emplace,
}
use ravl.Http.Message.{HttpRequest, HttpResponse, HttpRequests, HttpResponses, no_response}
use ravl.Http.Sync.{SyncClient, store_response, run_requests, open_set, deliver, submit}

module _ (execute : HttpRequest → Result HttpResponse) where
  -- Each request is answered, in order, with status 200.
  abbrev pub Answers : HttpRequests → HttpResponses → Type 0
  Answers [] [] = Unit {0}
  Answers [] (r ∷ rs) = ⊥
  Answers (q ∷ qs) [] = ⊥
  Answers (q ∷ qs) (r ∷ rs) = (execute q ≡ ok r) × (r.status ≡ 200) × Answers qs rs

module _ {ℓ} {A : Type ℓ} where
  pub set_middle :
      (pre : List A) (x y : A) (post : List A)
      → set (pre ++ (x ∷ post)) (length pre) y ≡ pre ++ (y ∷ post)
  set_middle [] x y post = refl
  set_middle (p ∷ pre) x y post = ap (λ l. p ∷ l) (set_middle pre x y post)

module _ {W : Type 0} (execute : HttpRequest → Result HttpResponse) where
  -- Storing a response replaces the placeholder at its index.
  store_response_lem :
      (id : ℕ) (pre post : HttpResponses) (x r : HttpResponse) (c : SyncClient W)
      → find c.response_sets id ≡ some (pre ++ (x ∷ post))
      → store_response execute id (length pre) r c
        ≡ (ok tt, record c { response_sets = assign c.response_sets id (pre ++ (r ∷ post)) })
  unfolding store_response
  store_response_lem id pre post x r c h =
      ground (arith, set_middle pre x r post, length-append pre (x ∷ post))

  -- The loop fills the placeholders with the answers and touches nothing else.
  run_requests_lem :
      (qs : HttpRequests) (rs pre : HttpResponses) (id i : ℕ) (c : SyncClient W)
      → i ≡ length pre
      → find c.response_sets id ≡ some (pre ++ replicate (length qs) no_response)
      → Answers execute qs rs
      → (m : IdMap HttpResponses) × (run_requests execute id i qs c
          ≡ (ok tt, record c { response_sets = m }))
        × (find m id ≡ some (pre ++ rs))
  unfolding run_requests
  run_requests_lem [] [] pre id i c hi hc ha = (c.response_sets, refl, hc)
  run_requests_lem [] (r ∷ rs) pre id i c hi hc ha = absurd ha
  run_requests_lem (q ∷ qs) [] pre id i c hi hc ha = absurd ha
  run_requests_lem (q ∷ qs) (r ∷ rs) pre id i c hi hc ha =
      let todo = replicate (length qs) no_response in
      let c' : SyncClient W = record c {
        response_sets = assign c.response_sets id (pre ++ (r ∷ todo));
      } in
      let (m, e, f) =
        run_requests_lem qs rs (pre ++ (r ∷ [])) id (i + 1) c'
          (omega (arith, length-append pre (r ∷ [])))
          (rw (append_assoc pre (r ∷ []) todo) (find-assign_self _ _ _)) ha.2 in
      (
        m,
        ground (arith, ha.0, ha.1, hi, store_response_lem id pre todo no_response r c hc, e),
        rw (append_assoc pre (r ∷ []) rs) at f,
      )

module _ {W : Type 0} (execute : HttpRequest → Result HttpResponse) where
  open_set_lem :
      (sent : HttpRequests) (c : SyncClient W)
      → find c.response_sets (size c.request_sets) ≡ none
      → open_set execute sent c ≡ (
        ok (size c.request_sets),
        record c {
          request_sets = emplace c.request_sets (size c.request_sets) sent;
          response_sets =
              emplace c.response_sets (size c.request_sets) (replicate (length sent) no_response);
        },
      )
  unfolding open_set
  open_set_lem sent c free = ground (arith, free)

  deliver_lem :
      (id : ℕ) (rs : HttpResponses) (callback : HttpResponses → Exec W (Unit {0}))
      (c : SyncClient W) (w : W)
      → find c.response_sets id ≡ some rs
      → callback rs c.world ≡ (ok tt, w)
      → deliver execute id callback c
        ≡ (ok tt, record c { response_sets = erase (assign c.response_sets id []) id; world = w })
  unfolding deliver
  deliver_lem id rs callback c w stored returns = ground arith

module _ {W : Type 0} (execute : HttpRequest → Result HttpResponse) (sent qs : HttpRequests)
    (rs : HttpResponses) (callback : HttpResponses → Exec W (Unit {0})) (c : SyncClient W)
    (free : find c.response_sets (size c.request_sets) ≡ none) (answered : Answers execute qs rs)
    (same : length sent ≡ length qs) (w : W) (returns : callback rs c.world ≡ (ok tt, w)) where
  -- The requests that are stored under the new identifier are made, and the callback gets the answers.
  pub submit_runs :
      find (emplace c.request_sets (size c.request_sets) sent) (size c.request_sets) ≡ some qs
      → ((submit execute sent callback c).0 ≡ ok (size c.request_sets))
        × ((submit execute sent callback c).1.world ≡ w)
        × (find (submit execute sent callback c).1.response_sets (size c.request_sets) ≡ none)
  unfolding submit
  submit_runs stored =
      let id = size c.request_sets in
      let c₁ : SyncClient W = record c {
        request_sets = emplace c.request_sets id sent;
        response_sets = emplace c.response_sets id (replicate (length sent) no_response);
      } in
      let (m, e, f) =
        run_requests_lem execute qs rs [] id 0 c₁ refl
          (ground (
            arith,
            find-emplace c.response_sets id (replicate (length sent) no_response) free id,
            same,
          ))
          answered in
      let c₂ : SyncClient W = record c₁ { response_sets = m } in
      ground (
        arith,
        stored,
        e,
        open_set_lem execute sent c free,
        deliver_lem execute id rs callback c₂ w f returns,
        find-erase (assign m id []) id id,
      )
