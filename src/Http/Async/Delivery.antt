-- ===== src/Http/Async/Delivery.antt =====
-- The asynchronous client delivers what the synchronous one does.
use mathlib.Core.Path.{subst}
use ravl.Prelude.{
  map, ℕ, suc, ◌≤◌, ◌≡◌, refl, sym, ap, ◌∙◌, Bool, true, false, List, [], ◌∷◌, none, some, length,
  replicate, arith, if◌then◌else◌,
}
use ravl.Result.{ok}
use ravl.Exec.{Exec, pure, ◌>>=◌, ◌>>◌}
use ravl.IdMap.{find, size, assign, emplace, find-assign_self, find-erase, find-emplace}
use ravl.Http.Message.{HttpRequest, HttpRequests, HttpResponses, no_response}
use ravl.Http.Curl.{Transfer, transferred, execute_loop, execute_synchronous}
use ravl.Http.Sync.{SyncClient}
use ravl.Http.Sync
use ravl.Http.Sync.Submit.{Answers}
use ravl.Http.Sync.Reuse.{submit_fresh}
use ravl.Http.Async.{
  TrackedRequests, Callback, CurlClient, Setup, submit, open_multi, open_responses, start_transfers,
  start_monitor, complete, consume_msgs, all_answered, is_complete, call_back, stop, poll_deliver,
}
use ravl.Http.Async.Served.{
  must_retry_lem, all_answered-answers, then_lem, bind_lem, serve_lem, Served, answers, AllFinal,
  serve, IsReceived, status_received, Ends, begin, stored, stored-begin, transfers-begin,
  length-begin,
}

module _ {W : Type 0} where
  -- A set that is submitted, served and polled.
  abbrev pub session :
      Setup → HttpRequests → List (ℕ × Served) → Callback W → Exec (CurlClient W) Bool
  session setup rs ends callback = do
    id ← submit setup rs (some callback)
    serve id ends
    complete ← (λ c. (is_complete true 0 id c, c))
    if complete then poll_deliver id [] (some callback) else pure true

  submitted :
      (setup : Setup) (multi : ℕ) (rs : HttpRequests) (callback : Callback W) (c : CurlClient W)
      → setup.multi ≡ some multi
      → length rs ≤ setup.easy_handles
      → setup.performs ≡ true
      → find c.requests (size c.requests) ≡ none
      → find c.responses (size c.requests) ≡ none
      → submit setup rs (some callback) c ≡ (
        ok (size c.requests),
        start_monitor (size c.requests) multi (some callback) (record c {
          requests =
              assign
                (emplace c.requests (size c.requests) (record { requests = rs; multi = 0 }))
                (size c.requests)
                (record { requests = rs; multi = multi });
          responses = emplace c.responses (size c.requests) (replicate (length rs) no_response);
        }),
      )
  unfolding submit open_multi open_responses start_transfers
  submitted setup multi rs callback c e₁ e₂ e₃ new free = ground (arith, e₁, e₂, e₃, new, free)

  delivered :
      (id : ℕ) (rs : HttpResponses) (t : TrackedRequests) (callback : Callback W) (c : CurlClient W)
      (w : W)
      → find c.requests id ≡ some t
      → find c.responses id ≡ some rs
      → all_answered rs ≡ true
      → callback rs c.world ≡ (ok tt, w)
      → (is_complete true 0 id c ≡ ok true)
        × ((poll_deliver id [] (some callback) c).0 ≡ ok false)
        × ((poll_deliver id [] (some callback) c).1.world ≡ w)
        × (find (poll_deliver id [] (some callback) c).1.requests id ≡ none)
  unfolding is_complete poll_deliver consume_msgs call_back stop
  delivered id rs t callback c w tracked found answered returns =
      ground (arith, tracked, found, answered, returns, find-erase c.requests id id)

  -- On an unused identifier, with libcurl's handles, a final status for each request, in any order, and a
  -- callback that returns: the callback gets the answer to each request, and the requests are gone.
  session_lem :
      (setup : Setup) (multi : ℕ) (rs : HttpRequests) (ss : List Served) (ends : List (ℕ × Served))
      (callback : Callback W) (c : CurlClient W) (w : W)
      → setup.multi ≡ some multi
      → length rs ≤ setup.easy_handles
      → setup.performs ≡ true
      → find c.requests (size c.requests) ≡ none
      → find c.responses (size c.requests) ≡ none
      → length rs ≡ length ss
      → AllFinal ss
      → Ends (begin ss) ends
      → callback (answers ss) c.world ≡ (ok tt, w)
      → ((session setup rs ends callback c).0 ≡ ok false)
        × ((session setup rs ends callback c).1.world ≡ w)
        × (find (session setup rs ends callback c).1.requests (size c.requests) ≡ none)
  unfolding start_monitor
  session_lem setup multi rs ss ends callback c w e₁ e₂ e₃ new free same final once returns =
      let id = size c.requests in
      let first : TrackedRequests = record { requests = rs; multi = 0 } in
      let t : TrackedRequests = record { requests = rs; multi = multi } in
      let c₁ : CurlClient W = start_monitor id multi (some callback) (record c {
        requests = assign (emplace c.requests id first) id t;
        responses = emplace c.responses id (replicate (length rs) no_response);
      }) in
      let tracked : find c₁.requests id ≡ some t =
        find-assign_self (emplace c.requests id first) id t in
      let opened : find c₁.responses id ≡ some (replicate (length rs) no_response) =
        ground (arith, find-emplace c.responses id (replicate (length rs) no_response) free id) in
      let new_responses : replicate (length rs) no_response ≡ map stored (begin ss) =
        ap (λ n. replicate n no_response) same ∙ sym (stored-begin ss) in
      let all = transfers-begin ss in
      let (m, served, kept) =
        serve_lem ends (begin ss) id t c₁ tracked (opened ∙ ap some new_responses)
          (length-begin ss ∙ sym same) (subst (λ l. AllFinal l) (sym all) final) once in
      let found = kept ∙ ap (λ l. some (answers l)) all in
      let c₂ : CurlClient W = record c₁ { responses = m } in
      let (complete, r₀, r₁, r₂) =
        delivered id (answers ss) t callback c₂ w tracked found (all_answered-answers ss final)
          returns in
      let whole : session setup rs ends callback c ≡ poll_deliver id [] (some callback) c₂ =
        bind_lem (submit setup rs (some callback)) _ c c₁
          (submitted setup multi rs callback c e₁ e₂ e₃ new free)
        ∙ then_lem (serve id ends) _ c₁ c₂ served
        ∙ bind_lem (λ c. (is_complete true 0 id c, c)) _ c₂ c₂ (ap (λ r. (r, c₂)) complete) in
      rw whole (r₀, r₁, r₂)

module _ (perform : ℕ → HttpRequest → Transfer) where
  -- Each request is transferred at the first attempt, with status 200, and what libcurl writes is
  -- received without an exception.
  abbrev pub Performs : HttpRequests → List Served → Type 0
  Performs [] [] = Unit {0}
  Performs [] (s ∷ ss) = ⊥
  Performs (q ∷ qs) [] = ⊥
  Performs (q ∷ qs) (s ∷ ss) =
      (perform 0 q ≡ transferred s.status s.headers s.chunks)
      × (s.status ≡ 200)
      × IsReceived s
      × Performs qs ss

  execute_lem :
      (k : ℕ) (q : HttpRequest) (s : Served)
      → perform 0 q ≡ transferred s.status s.headers s.chunks
      → s.status ≡ 200
      → IsReceived s
      → (execute_synchronous perform (suc k) q ≡ ok s.answer) × (s.answer.status ≡ 200)
  unfolding execute_synchronous execute_loop
  execute_lem k q s e h received =
      let final : s.answer.status ≡ 200 = sym (status_received s received) ∙ h in
      (
        ground (
          arith,
          e,
          received,
          must_retry_lem s.answer (λ bad. absurd (omega (arith, final, bad))),
        ),
        final,
      )

  length-Performs : (qs : HttpRequests) (ss : List Served) → Performs qs ss → length qs ≡ length ss
  length-Performs [] [] h = refl
  length-Performs [] (s ∷ ss) h = absurd h
  length-Performs (q ∷ qs) [] h = absurd h
  length-Performs (q ∷ qs) (s ∷ ss) h = ap suc (length-Performs qs ss h.3)

  AllFinal-Performs : (qs : HttpRequests) (ss : List Served) → Performs qs ss → AllFinal ss
  AllFinal-Performs [] [] h = tt
  AllFinal-Performs [] (s ∷ ss) h = absurd h
  AllFinal-Performs (q ∷ qs) [] h = absurd h
  AllFinal-Performs (q ∷ qs) (s ∷ ss) h = (
    ((λ bad. absurd (omega (arith, h.1, bad))), omega (arith, h.1), h.2),
    AllFinal-Performs qs ss h.3,
  )

  Answers-Performs :
      (k : ℕ) (qs : HttpRequests) (ss : List Served)
      → Performs qs ss
      → Answers (execute_synchronous perform (suc k)) qs (answers ss)
  Answers-Performs k [] [] h = tt
  Answers-Performs k [] (s ∷ ss) h = absurd h
  Answers-Performs k (q ∷ qs) [] h = absurd h
  Answers-Performs k (q ∷ qs) (s ∷ ss) h =
      let (e, final) = execute_lem k q s h.0 h.1 h.2 in (e, final, Answers-Performs k qs ss h.3)

  -- The same transfers, each of status 200 and received without an exception, which end in any order,
  -- under an unused identifier and with handles from libcurl: the asynchronous client's submission,
  -- transfers and last poll return, and its callback leaves what the callback of the synchronous
  -- client's `submit` does.
  pub session-submit :
      {W : Type 0} (k : ℕ) (setup : Setup) (multi : ℕ) (rs : HttpRequests) (ss : List Served)
      (ends : List (ℕ × Served)) (callback : Callback W) (c : CurlClient W) (s : SyncClient W)
      (w : W)
      → setup.multi ≡ some multi
      → length rs ≤ setup.easy_handles
      → setup.performs ≡ true
      → find c.requests (size c.requests) ≡ none
      → find c.responses (size c.requests) ≡ none
      → find s.request_sets (size s.request_sets) ≡ none
      → find s.response_sets (size s.request_sets) ≡ none
      → Performs rs ss
      → Ends (begin ss) ends
      → s.world ≡ c.world
      → callback (answers ss) c.world ≡ (ok tt, w)
      → ((session setup rs ends callback c).0 ≡ ok false)
        × ((session setup rs ends callback c).1.world
            ≡ (Sync.submit (execute_synchronous perform (suc k)) rs callback s).1.world)
        × (find (session setup rs ends callback c).1.requests (size c.requests) ≡ none)
  session-submit k setup multi rs ss ends callback c s w e₁ e₂ e₃ new free new' free' performed once
        same returns =
      let (a₀, a₁, a₂) =
        session_lem setup multi rs ss ends callback c w e₁ e₂ e₃ new free
          (length-Performs rs ss performed) (AllFinal-Performs rs ss performed) once returns in
      let (s₀, s₁, s₂) =
        submit_fresh (execute_synchronous perform (suc k)) rs callback s (answers ss) w new' free'
          (Answers-Performs k rs ss performed) (ap (λ v. callback (answers ss) v) same ∙ returns) in
      (a₀, a₁ ∙ sym s₁, a₂)
